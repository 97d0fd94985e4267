-- ===== src/Health/Scanner/Coverage.antt =====
-- What successive scan cycles cover: crates/craftec-health/src/scanner.rs.
use native.Mathlib.Nat.{mod-lt, mod-eq_of_lt, mod-eq-sub-mod, suc-add, suc-mul}
use craftec.Prelude.{
  ℕ, zero, suc, ◌+◌, ◌-◌, ◌*◌, ◌%◌, ◌<◌, ◌≤◌, ◌≡◌, refl, ap, sym, ◌∙◌, arith, max, min, List, [],
  ◌∷◌, ◌++◌, some, true, false, inl, inr, ◌⊎◌, ltb, ◌==◌, length, take, drop, get_elem?, Bool-cases,
  Option-cases,
}
use craftec.Health.Tracker.{PieceTracker}
use craftec.Health.Scanner.{
  RepairRequest, evaluate_cid, sorted_cids, eligible, evaluate_all, batch, scan_cycle,
}

-- The list has the element at some index.
abbrev pub Has {ℓ} : {A : Type ℓ} → List A → A → Type ℓ
Has xs x = (i : ℕ) × (get_elem? xs i ≡ some x)

module _ {ℓ} {A : Type ℓ} where
  append-Has_left : (xs ys : List A) (x : A) (i : ℕ) → get_elem? xs i ≡ some x → Has (xs ++ ys) x
  append-Has_left [] ys x i e = absurd (cc)
  append-Has_left (y ∷ xs) ys x zero e = (zero, e)
  append-Has_left (y ∷ xs) ys x (suc i) e = let (j, h) = append-Has_left xs ys x i e in (suc j, h)

  append-Has_right : (xs ys : List A) (x : A) (i : ℕ) → get_elem? ys i ≡ some x → Has (xs ++ ys) x
  append-Has_right [] ys x i e = (i, e)
  append-Has_right (y ∷ xs) ys x i e = let (j, h) = append-Has_right xs ys x i e in (suc j, h)

  get_elem?-take : (n i : ℕ) (xs : List A) → i < n → get_elem? (take n xs) i ≡ get_elem? xs i
  get_elem?-take zero i xs h = elim h [ ]
  get_elem?-take (suc n) i [] h = refl
  get_elem?-take (suc n) zero (x ∷ xs) h = refl
  get_elem?-take (suc n) (suc i) (x ∷ xs) h = get_elem?-take n i xs (omega arith)

  get_elem?-drop : (n i : ℕ) (xs : List A) → get_elem? (drop n xs) i ≡ get_elem? xs (n + i)
  get_elem?-drop zero i xs = ap (get_elem? xs) (omega arith)
  get_elem?-drop (suc n) i [] = refl
  get_elem?-drop (suc n) i (x ∷ xs) = rw suc-add (get_elem?-drop n i xs)

-- The index is `d` places behind the start, around the end if need be.
abbrev pub Behind : ℕ → ℕ → ℕ → ℕ → Type 0
Behind total start d i = (i ≡ start + d) ⊎ (i + total ≡ start + d)

batch-Has :
    (start batch_size d i cid : ℕ) (cids : List ℕ)
    → i < length cids
    → Behind (length cids) start d i
    → d < batch_size
    → get_elem? cids i ≡ some cid
    → Has (batch start batch_size cids) cid
unfolding batch
batch-Has start n d i cid cids small (inl e) lt here =
    append-Has_left (take (min (start + n) (length cids) - start) (drop start cids)) _ cid d (
      get_elem?-take (min (start + n) (length cids) - start) d (drop start cids)
        (omega (arith, e, small, lt))
      ∙ (get_elem?-drop start d cids ∙ (ap (get_elem? cids) (sym e) ∙ here)))
batch-Has start n d i cid cids small (inr e) lt here =
    let around : ltb (length cids) (start + n) ≡ true = ground arith in
    rw around (
      append-Has_right (take (min (start + n) (length cids) - start) (drop start cids)) _ cid i (
        get_elem?-take (min ((start + n) - length cids) (length cids)) i cids
          (omega (arith, e, small, lt))
        ∙ here))

evaluate_all-Has :
    (t : PieceTracker) (cids : List ℕ) (cid : ℕ) (request : RepairRequest) (i : ℕ)
    → get_elem? cids i ≡ some cid
    → evaluate_cid t cid ≡ some request
    → Has (evaluate_all t cids) request
unfolding evaluate_all
evaluate_all-Has t [] cid request i e q = absurd (cc)
evaluate_all-Has t (c ∷ cids) cid request zero e q =
    let q' : evaluate_cid t c ≡ some request = (let same : c ≡ cid = (cc) in rw same q) in
    rw (q', evaluate_all) (zero, refl)
evaluate_all-Has t (c ∷ cids) cid request (suc i) e q =
    let (j, h) = evaluate_all-Has t cids cid request i e q in
    elim (Option-cases (evaluate_cid t c)) [
      | inl n ↦ rw (n, evaluate_all) (j, h)
      | inr (r, n) ↦ rw (n, evaluate_all) (suc j, h)
    ]

-- Some cycles in a row, with the tracker as it is: their requests.
unfoldable pub cycles : (ℕ → ℕ) → ℕ → PieceTracker → ℕ → ℕ → List RepairRequest
cycles percent_of node t zero cursor = []
cycles percent_of node t (suc n) cursor =
    let (next, requests) = scan_cycle percent_of node t cursor in
    requests ++ cycles percent_of node t n next

-- One step around a circle.
step_mod : (a t : ℕ) → a < t + t → 0 < t → (a % t ≡ a) × (a < t) ⊎ ((a % t) + t ≡ a) × (t ≤ a)
step_mod a t h pos = elim (Bool-cases (ltb a t)) [
  | inl e ↦ inl (mod-eq_of_lt (ground arith), ground arith)
  | inr e ↦
      let le : t ≤ a = ground arith in
      let low : a - t < t = omega (arith, h, le) in
      let q : a % t ≡ a - t = mod-eq-sub-mod le ∙ mod-eq_of_lt low in inr (omega (arith, q, le), le)
]

get_elem?-below :
    {A : Type 0} (xs : List A) (i : ℕ) (x : A) → get_elem? xs i ≡ some x → i < length xs
get_elem?-below [] i x e = absurd (cc)
get_elem?-below (y ∷ xs) zero x e = omega arith
get_elem?-below (y ∷ xs) (suc i) x e = let h = get_elem?-below xs i x e in omega (arith, h)

module _ (percent_of : ℕ → ℕ) (node : ℕ) (t : PieceTracker) where
  abbrev total : ℕ
  total = length (eligible t node (sorted_cids t))

  scan_cycle_lem :
      (cursor : ℕ)
      → 0 < total
      → scan_cycle percent_of node t cursor ≡ (
        (cursor % total + max (percent_of total) 1) % total,
        evaluate_all t
            (batch (cursor % total) (max (percent_of total) 1) (eligible t node (sorted_cids t))),
      )
  unfolding scan_cycle
  scan_cycle_lem cursor pos =
      let some_left : (total == 0) ≡ false = ground arith in rw (some_left, scan_cycle) refl

  advance :
      (start b d i : ℕ)
      → start < total
      → b ≤ total
      → i < total
      → b ≤ d
      → Behind total start d i
      → Behind total (((start + b) % total) % total) (d - b) i
  advance start b d i small fits here le behind =
      let pos : 0 < total = omega (arith, small) in
      let again : ((start + b) % total) % total ≡ (start + b) % total =
        mod-eq_of_lt (mod-lt (start + b) pos) in
      rw again (elim (step_mod (start + b) total (omega (arith, small, fits)) pos) [
        | inl (e, lt) ↦ elim behind [
          | inl h ↦ inl (omega (arith, e, h, le))
          | inr h ↦ inr (omega (arith, e, h, le))
        ]
        | inr (e, wrap) ↦ elim behind [
          | inl h ↦ absurd (omega (arith, e, h, le, here))
          | inr h ↦ inl (omega (arith, e, h, le))
        ]
      ])

  covers :
      (n cursor d i cid : ℕ) (request : RepairRequest)
      → percent_of total ≤ total
      → i < total
      → d < n * max (percent_of total) 1
      → Behind total (cursor % total) d i
      → get_elem? (eligible t node (sorted_cids t)) i ≡ some cid
      → evaluate_cid t cid ≡ some request
      → Has (cycles percent_of node t n cursor) request
  unfolding cycles
  covers zero cursor d i cid request within small left behind here needs =
      absurd (omega (arith, left))
  covers (suc n) cursor d i cid request within small left behind here needs =
      let b = max (percent_of total) 1 in
      let start = cursor % total in
      let pos : 0 < total = omega (arith, small) in
      let now = evaluate_all t (batch start b (eligible t node (sorted_cids t))) in
      rw (scan_cycle_lem cursor pos) (elim (Bool-cases (ltb d b)) [
        | inl e ↦
            let (j, h) =
              batch-Has start b d i cid (eligible t node (sorted_cids t)) small behind
                (ground arith) here in
            let (k, q) =
              evaluate_all-Has t (batch start b (eligible t node (sorted_cids t))) cid request j h
                needs in
            append-Has_left now _ request k q
        | inr e ↦
            let le : b ≤ d = ground arith in
            let (k, q) =
              covers n ((start + b) % total) (d - b) i cid request within small
                (let split = suc-mul n b in omega (arith, split, left, le))
                (advance start b d i (mod-lt cursor pos) (omega (arith, within, pos)) small le
                  behind)
                here needs in
            append-Has_right now _ request k q
      ])

  -- As long as the tracker does not change, successive cycles evaluate every content of which this
  -- node holds two pieces or more: once the batches together are as many as the eligible contents,
  -- each eligible one that needs repair is among the requests, wherever the cursor stood. A batch
  -- is at most all eligible contents.
  pub cycles-cover :
      (n cursor cid : ℕ) (request : RepairRequest)
      → percent_of (length (eligible t node (sorted_cids t)))
        ≤ length (eligible t node (sorted_cids t))
      → length (eligible t node (sorted_cids t))
        ≤ n * max (percent_of (length (eligible t node (sorted_cids t)))) 1
      → Has (eligible t node (sorted_cids t)) cid
      → evaluate_cid t cid ≡ some request
      → Has (cycles percent_of node t n cursor) request
  cycles-cover n cursor cid request within enough (i, here) needs =
      let small = get_elem?-below (eligible t node (sorted_cids t)) i cid here in
      let start = cursor % total in
      let low : start < total = mod-lt cursor (omega (arith, small)) in
      elim (Bool-cases (ltb i start)) [
        | inl e ↦
            covers n cursor ((i + total) - start) i cid request within small
              (ground (arith, low, small, enough)) (inr (ground (arith, low))) here needs
        | inr e ↦
            covers n cursor (i - start) i cid request within small (ground (arith, small, enough))
              (inl (ground arith)) here needs
      ]
