-- ===== src/ScheduleIndex/Grouping.antt =====
-- The dictionary `by_gpu`, as the list of its keys with their spans in the order of insertion.
use gpubk.Prelude.{
  ℕ, List, [], ◌∷◌, ◌++◌, ◌==◌, if◌then◌else◌, ◌≡◌, ◌∙◌, sym, ap, inl, inr, arith, Bool-cases,
}
use gpubk.ScheduleIndex.Spans.{ReservationSpan}
use mathlib.Core.List.{append_assoc, append-nil}

abbrev pub Groups : Type 0
Groups = List (ℕ × List ReservationSpan)

-- `by_gpu.get(gpu, ())`
unfoldable pub get : ℕ → Groups → List ReservationSpan
get gpu [] = []
get gpu ((key, items) ∷ rest) = if key == gpu then items else get gpu rest

-- `by_gpu.setdefault(gpu, []).append(span)`
unfoldable pub append : ℕ → ReservationSpan → Groups → Groups
append gpu span [] = (gpu, span ∷ []) ∷ []
append gpu span ((key, items) ∷ rest) =
    if key == gpu then (key, items ++ span ∷ []) ∷ rest else (key, items) ∷ append gpu span rest

-- `for gpu in span.gpus`
unfoldable pub group_span : ReservationSpan → List ℕ → Groups → Groups
unfolding append
group_span span [] groups = groups
group_span span (gpu ∷ gpus) groups = group_span span gpus (append gpu span groups)

-- `for span in self.spans`
group_from : List ReservationSpan → Groups → Groups
unfolding group_span
group_from [] groups = groups
group_from (span ∷ spans) groups = group_from spans (group_span span span.gpus groups)

unfoldable pub group : List ReservationSpan → Groups
unfolding group_from
group spans = group_from spans []

-- What stands under a key: one copy of a span for each time that it names the GPU.
abbrev pub copies : ℕ → ReservationSpan → List ℕ → List ReservationSpan
copies gpu span [] = []
copies gpu span (g ∷ gs) = let rest = copies gpu span gs in if g == gpu then span ∷ rest else rest

abbrev pub on_gpu : ℕ → List ReservationSpan → List ReservationSpan
on_gpu gpu [] = []
on_gpu gpu (span ∷ spans) = copies gpu span span.gpus ++ on_gpu gpu spans

get-append :
    (gpu g : ℕ) (span : ReservationSpan) (groups : Groups)
    → get gpu (append g span groups)
      ≡ (if g == gpu then get gpu groups ++ span ∷ [] else get gpu groups)
unfolding get append
get-append gpu g span [] = ground arith
get-append gpu g span ((key, items) ∷ rest) = ground (arith, get-append gpu g span rest)

get-group_span :
    (gpu : ℕ) (span : ReservationSpan) (gs : List ℕ) (groups : Groups)
    → get gpu (group_span span gs groups) ≡ get gpu groups ++ copies gpu span gs
unfolding group_span
get-group_span gpu span [] groups = sym (append-nil _)
get-group_span gpu span (g ∷ gs) groups =
    get-group_span gpu span gs (append g span groups) ∙ elim (Bool-cases (g == gpu)) [
      | inl same ↦
          ap (λ l. l ++ copies gpu span gs) (get-append gpu g span groups)
          ∙ rw same (append_assoc (get gpu groups) (span ∷ []) (copies gpu span gs))
      | inr differs ↦ ap (λ l. l ++ copies gpu span gs) (get-append gpu g span groups) ∙ rw differs
    ]

get-group_from :
    (gpu : ℕ) (spans : List ReservationSpan) (groups : Groups)
    → get gpu (group_from spans groups) ≡ get gpu groups ++ on_gpu gpu spans
unfolding group_from
get-group_from gpu [] groups = sym (append-nil _)
get-group_from gpu (span ∷ spans) groups =
    get-group_from gpu spans (group_span span span.gpus groups)
    ∙ ap (λ l. l ++ on_gpu gpu spans) (get-group_span gpu span span.gpus groups)
    ∙ append_assoc (get gpu groups) (copies gpu span span.gpus) (on_gpu gpu spans)

-- The spans grouped under a GPU are those that name it, in their order.
pub get-group : (gpu : ℕ) (spans : List ReservationSpan) → get gpu (group spans) ≡ on_gpu gpu spans
unfolding group get
get-group gpu spans = get-group_from gpu spans []
