-- ===== src/ScheduleIndex/Spans.antt =====
-- Spans and their order: `_span_sort_key`, and Python's stable `sorted` by insertion.
use Prim.Native.Char.{code}
use gpubk.Prelude.{ℕ, String, Bool, true, false, List, [], ◌∷◌, ltb, ◌==◌, if◌then◌else◌}
use gpubk.Models.{Instant, Mode, Reservation}

pub record ReservationSpan : Type 0 where
  pub reservation : Reservation
  pub start : Instant
  pub end : Instant
  pub gpus : List ℕ
  pub mode : Mode

-- `a < b` on texts, by code points.
unfoldable pub text_before : String → String → Bool
text_before String.[] String.[] = false
text_before String.[] (String.◌∷◌ d t) = true
text_before (String.◌∷◌ c s) String.[] = false
text_before (String.◌∷◌ c s) (String.◌∷◌ d t) =
    let rest = text_before s t in
    if ltb (code c) (code d) then true else if code c == code d then rest else false

-- `_span_sort_key(a) < _span_sort_key(b)`
unfoldable pub span_before : ReservationSpan → ReservationSpan → Bool
unfolding text_before
span_before a b =
    if ltb a.start b.start
    then true
    else if a.start == b.start
    then (if ltb a.end b.end
        then true
        else if a.end == b.end
        then text_before a.reservation.id b.reservation.id
        else false)
    else false

unfoldable pub insert_span : ReservationSpan → List ReservationSpan → List ReservationSpan
unfolding span_before
insert_span x [] = x ∷ []
insert_span x (y ∷ ys) =
    let rest = insert_span x ys in if span_before y x then y ∷ rest else x ∷ y ∷ ys

unfoldable pub sorted_spans : List ReservationSpan → List ReservationSpan
unfolding insert_span
sorted_spans [] = []
sorted_spans (x ∷ xs) = insert_span x (sorted_spans xs)
