-- ===== src/Mirrors.antt =====
-- The choice of the mirrors that are tried next (src/lastore-smartmirror-daemon/quality.go).
pub mod Sorting
pub mod Threaded
pub mod Answered
pub mod Known
pub mod Selection
pub mod Choice
pub mod Examples
use lastore_daemon.Base.{
  ℕ, zero, suc, ◌+◌, ◌*◌, ◌/◌, Bool, true, false, not, ◌||◌, List, [], ◌∷◌, ◌++◌, Option, none,
  some, String, str_eq, if◌then◌else◌, ltb, leb, length, take, drop, any,
}

-- `Quality`. Counts and delays are not negative.
pub record Quality : Type 0 where
  pub detect_count : ℕ
  pub access_count : ℕ
  pub failed_count : ℕ
  pub average_delay : ℕ

-- `QualityMap`, none at a key that is missing.
abbrev pub QualityMap : Type 0
QualityMap = String → Option Quality

abbrev pub set_quality : String → Quality → QualityMap → QualityMap
set_quality mirror q m x = if str_eq mirror x then some q else m x

abbrev pub default_quality : Quality
default_quality = record {
  detect_count = 0;
  access_count = 0;
  failed_count = 0;
  average_delay = 5000;
}

-- `getQuality`, which puts the default at a key that is missing.
unfoldable pub get_quality : String → QualityMap → QualityMap × Quality
get_quality mirror m = elim (m mirror) [
  | some q ↦ (m, q)
  | none ↦ (set_quality mirror default_quality m, default_quality)
]

-- `Report`, with the delay in milliseconds.
pub record Report : Type 0 where
  pub mirror : String
  pub delay : ℕ
  pub failed : Bool

unfoldable pub update_quality : Report → QualityMap → QualityMap
unfolding get_quality
update_quality r m =
    let (m', q) = get_quality r.mirror m in
    set_quality r.mirror
      (record q {
        failed_count = if r.failed then suc q.failed_count else q.failed_count;
        access_count = suc q.access_count;
        average_delay = (q.average_delay * q.access_count + r.delay) / suc q.access_count;
      })
      m'

-- A `compareHandler`; it may put defaults into the map.
abbrev pub Handler : Type 0
Handler = QualityMap → String → String → QualityMap × Bool

unfoldable pub select_less_access : Handler
unfolding get_quality
select_less_access m left right =
    let (m1, lq) = get_quality left m in
    let (m2, rq) = get_quality right m1 in (m2, leb lq.detect_count rq.detect_count)

-- `compare`; `adjust` is `adjustDelays`, 0 where nothing is known.
unfoldable pub compare : (String → ℕ) → Handler
unfolding get_quality
compare adjust m left right =
    let (m1, lq) = get_quality left m in
    let (m2, rq) = get_quality right m1 in
    (
      m2,
      if ltb (lq.failed_count * rq.access_count) (rq.failed_count * lq.access_count)
          then true
          else if ltb (rq.failed_count * lq.access_count) (lq.failed_count * rq.access_count)
          then false
          else leb (lq.average_delay + adjust left) (rq.average_delay + adjust right),
    )

abbrev pub put_first : String → QualityMap × List String → QualityMap × List String
put_first x (m, out) = (m, x ∷ out)

unfoldable pub merge : Handler → QualityMap → List String → List String → QualityMap × List String
merge h m [] right = (m, right)
merge h m (x ∷ left) [] = (m, x ∷ left)
merge h m (x ∷ left) (y ∷ right) =
    let (m', first) = h m x y in
    elim first [
      | true ↦ put_first x (merge h m' left (y ∷ right))
      | false ↦ put_first y (merge h m' (x ∷ left) right)
    ]

-- `mergeSort`; the fuel is the length of the list, or more.
unfoldable pub merge_sort : ℕ → Handler → QualityMap → List String → QualityMap × List String
unfolding merge
merge_sort zero h m l = (m, l)
merge_sort (suc fuel) h m l =
    let (m1, left) = merge_sort fuel h m (take (length l / 2) l) in
    let (m2, right) = merge_sort fuel h m1 (drop (length l / 2) l) in
    elim (ltb (length l) 2) [ true ↦ (m, l) | false ↦ merge h m2 left right ]

-- `sortSelectMirror`
unfoldable pub sort_select : (String → ℕ) → QualityMap → List String → QualityMap × List String
unfolding merge_sort
sort_select adjust m l =
    let (m', sorted) = merge_sort (length l) (compare adjust) m l in (m', take 2 sorted)

-- `lessAccessSelectMirror`
unfoldable pub less_access : QualityMap → List String → QualityMap × List String
unfolding merge_sort
less_access m l =
    let (m', sorted) = merge_sort (length l) select_less_access m l in (m', take 5 sorted)

-- The loop that adds what is not chosen yet, up to five.
unfoldable pub fill_up : List String → List String → List String → List String
fill_up sorted acc [] = acc
fill_up sorted acc (v ∷ vs) = elim (any (str_eq v) sorted) [
  | true ↦ fill_up sorted acc vs
  | false ↦ elim (leb 5 (length (acc ++ (v ∷ [])))) [
    | true ↦ acc ++ (v ∷ [])
    | false ↦ fill_up sorted (acc ++ (v ∷ [])) vs
  ]
]

-- The mirrors that `detectSelectMirror` chooses.
unfoldable pub selection : (String → ℕ) → QualityMap → List String → QualityMap × List String
unfolding sort_select less_access fill_up
selection adjust m l =
    let (m1, best) = sort_select adjust m l in
    let (m2, rare) = less_access m1 l in (m2, fill_up best best rare)

-- The loop that counts the choices; none is the panic at a missing entry.
unfoldable pub count_detects : List String → QualityMap → Option QualityMap
count_detects [] m = some m
count_detects (v ∷ vs) m = elim (m v) [
  | none ↦ none
  | some q ↦ count_detects vs (set_quality v (record q { detect_count = suc q.detect_count }) m)
]

-- `detectSelectMirror`
unfoldable pub detect_select :
    (String → ℕ) → QualityMap → List String → Option (List String × QualityMap)
unfolding selection count_detects
detect_select adjust m l =
    let (m', chosen) = selection adjust m l in
    elim (count_detects chosen m') [ none ↦ none | some m'' ↦ some (chosen, m'') ]
