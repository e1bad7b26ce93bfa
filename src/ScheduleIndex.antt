-- ===== src/ScheduleIndex.antt =====
-- src/bk/schedule_index.py: the active reservations of one request, grouped by GPU.
pub mod Spans
pub mod Grouping
pub mod Overlap
use gpubk.Prelude.{ℕ, zero, suc, Bool, List, [], ◌∷◌, map, take, select, ltb, leb, if◌then◌else◌}
use gpubk.Models.{Instant, Status, Reservation, Ledger, is_active}
use gpubk.ScheduleIndex.Spans.{ReservationSpan, sorted_spans}
use gpubk.ScheduleIndex.Grouping.{Groups, get, group}

pub record ReservationIndex : Type 0 where
  pub spans : List ReservationSpan
  pub by_gpu : Groups

-- `__init__`; `_starts_by_gpu` is read off `by_gpu` where it is used.
unfoldable pub build : List ReservationSpan → ReservationIndex
unfolding sorted_spans group
build spans = let ordered = sorted_spans spans in record { spans = ordered; by_gpu = group ordered }

abbrev pub span_of : Reservation → ReservationSpan
span_of r = record {
  reservation = r;
  start = r.start_at;
  end = r.end_at;
  gpus = r.gpus;
  mode = r.mode;
}

-- The loop of `from_ledger`, with the test of the allowed statuses.
unfoldable pub collect : (Status → Bool) → Instant → List Reservation → List ReservationSpan
collect allowed active_after [] = []
collect allowed active_after (r ∷ rs) =
    let rest = collect allowed active_after rs in
    if allowed r.status
    then (if leb r.end_at active_after then rest else span_of r ∷ rest)
    else rest

unfoldable pub from_ledger : Ledger → Instant → ReservationIndex
unfolding collect build
from_ledger ledger active_after = build (collect is_active active_after ledger.reservations)

unfoldable pub records : ReservationIndex → List Reservation
records index = map (λ span. span.reservation) index.spans

-- The insertion point of `x` in an ascending list, before equal elements.
unfoldable pub bisect_left : List Instant → Instant → ℕ
bisect_left [] x = 0
bisect_left (y ∷ ys) x = let rest = bisect_left ys x in if ltb y x then suc rest else 0

unfoldable pub overlapping : ReservationIndex → ℕ → Instant → Instant → List ReservationSpan
unfolding bisect_left get
overlapping index gpu start end =
    let spans = get gpu index.by_gpu in
    let stop = bisect_left (map (λ item. item.start) spans) end in
    select (λ span. ltb start span.end) (take stop spans)
