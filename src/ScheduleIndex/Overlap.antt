-- ===== src/ScheduleIndex/Overlap.antt =====
-- `overlapping` against a plain scan: the search on the sorted starts drops nothing.
use gpubk.Prelude.{
  ℕ, ◌≤◌, ◌≡◌, refl, ap, sym, Bool, true, false, ◌&&◌, List, [], ◌∷◌, ◌++◌, map, take, select,
  arith, ltb, ◌==◌, if◌then◌else◌, inl, inr, Bool-cases, ltb→ge, ge→ltb,
}
use gpubk.Models.{Instant}
use gpubk.ScheduleIndex.Spans.{ReservationSpan, span_before, insert_span, sorted_spans}
use gpubk.ScheduleIndex.Grouping.{copies, on_gpu, get-group}
use gpubk.ScheduleIndex.{build, bisect_left, overlapping}

-- Starts that do not fall, from `lo` on.
abbrev StartsFrom : ℕ → List ReservationSpan → Type 0
StartsFrom lo [] = Unit
StartsFrom lo (x ∷ xs) = (lo ≤ x.start) × StartsFrom x.start xs

StartsFrom-le : (a b : ℕ) (xs : List ReservationSpan) → a ≤ b → StartsFrom b xs → StartsFrom a xs
StartsFrom-le a b [] h s = tt
StartsFrom-le a b (x ∷ xs) h s = (omega arith, s.1)

span_before-le : (a b : ReservationSpan) → span_before a b ≡ true → a.start ≤ b.start
unfolding span_before
span_before-le a b h = ground arith

not-span_before-le : (a b : ReservationSpan) → span_before a b ≡ false → b.start ≤ a.start
unfolding span_before
not-span_before-le a b h = ground arith

insert_span-StartsFrom :
    (lo : ℕ) (x : ReservationSpan) (xs : List ReservationSpan)
    → lo ≤ x.start
    → StartsFrom lo xs
    → StartsFrom lo (insert_span x xs)
unfolding insert_span
insert_span-StartsFrom lo x [] h s = (h, tt)
insert_span-StartsFrom lo x (y ∷ ys) h s = elim (Bool-cases (span_before y x)) [
  | inl later ↦ rw later (s.0, insert_span-StartsFrom y.start x ys (span_before-le y x later) s.1)
  | inr first ↦ rw first (h, (not-span_before-le y x first, s.1))
]

sorted_spans-StartsFrom : (xs : List ReservationSpan) → StartsFrom 0 (sorted_spans xs)
unfolding sorted_spans
sorted_spans-StartsFrom [] = tt
sorted_spans-StartsFrom (x ∷ xs) =
    insert_span-StartsFrom 0 x (sorted_spans xs) (omega arith) (sorted_spans-StartsFrom xs)

copies-StartsFrom :
    (gpu : ℕ) (span : ReservationSpan) (gs : List ℕ) (rest : List ReservationSpan)
    → StartsFrom span.start rest
    → StartsFrom span.start (copies gpu span gs ++ rest)
copies-StartsFrom gpu span [] rest h = h
copies-StartsFrom gpu span (g ∷ gs) rest h = elim (Bool-cases (g == gpu)) [
  | inl same ↦ rw same (omega arith, copies-StartsFrom gpu span gs rest h)
  | inr differs ↦ rw differs (copies-StartsFrom gpu span gs rest h)
]

on_gpu-StartsFrom :
    (gpu lo : ℕ) (xs : List ReservationSpan) → StartsFrom lo xs → StartsFrom lo (on_gpu gpu xs)
on_gpu-StartsFrom gpu lo [] h = tt
on_gpu-StartsFrom gpu lo (x ∷ xs) h =
    StartsFrom-le lo x.start _ h.0
      (copies-StartsFrom gpu x x.gpus (on_gpu gpu xs) (on_gpu-StartsFrom gpu x.start xs h.1))

abbrev pub overlaps_span : Instant → Instant → ReservationSpan → Bool
overlaps_span start end span = ltb span.start end && ltb start span.end

abbrev stop_at : Instant → List ReservationSpan → ℕ
stop_at end xs = bisect_left (map (λ item. item.start) xs) end

past_end :
    (start end lo : ℕ) (xs : List ReservationSpan)
    → end ≤ lo
    → StartsFrom lo xs
    → select (overlaps_span start end) xs ≡ []
past_end start end lo [] h s = refl
past_end start end lo (x ∷ xs) h s =
    ground (arith, past_end start end x.start xs, ge→ltb x.start end)

take-bisect_left :
    (start end lo : ℕ) (xs : List ReservationSpan)
    → StartsFrom lo xs
    → select (λ span. ltb start span.end) (take (stop_at end xs) xs)
      ≡ select (overlaps_span start end) xs
unfolding bisect_left
take-bisect_left start end lo [] h = refl
take-bisect_left start end lo (x ∷ xs) h = elim (Bool-cases (ltb x.start end)) [
  | inl before ↦
      rw before
        (ap (λ l. if ltb start x.end then x ∷ l else l) (take-bisect_left start end x.start xs h.1))
  | inr after ↦ rw after (sym (past_end start end x.start xs (ltb→ge x.start end after) h.1))
]

-- For every list of spans, the indexed lookup by bisection returns exactly the spans that name
-- the GPU and overlap the interval, in the order of the sorted spans.
pub overlapping_lem :
    (spans : List ReservationSpan) (gpu : ℕ) (start end : Instant)
    → overlapping (build spans) gpu start end
      ≡ select (overlaps_span start end) (on_gpu gpu (sorted_spans spans))
unfolding overlapping build
overlapping_lem spans gpu start end = rw (get-group gpu (sorted_spans spans)) (
    take-bisect_left start end 0 (on_gpu gpu (sorted_spans spans))
      (on_gpu-StartsFrom gpu 0 (sorted_spans spans) (sorted_spans-StartsFrom spans)))
