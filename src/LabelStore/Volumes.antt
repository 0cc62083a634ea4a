-- ===== src/LabelStore/Volumes.antt =====
-- The volume of a label is the number of nodes that have it.
use rbsc.Base.{
  ℕ, zero, suc, ◌+◌, ◌-◌, ◌%◌, ◌^◌, ◌≤◌, ◌<◌, ◌≡◌, refl, sym, ap, subst, ◌∙◌, inl, inr, arith, true,
  false, some, List, [], ◌∷◌, replicate, range, length, length-set, length-replicate, length-range,
  get_elem?, get_elem?-lt, get_elem?-set_self, get_elem?-set_ne, set, All, All-set, All-get_elem?,
  ◌==◌, if◌then◌else◌, Bool-cases,
}
use mathlib.Core.Option.{some-injective}
use rbsc.DepthFirst.Invariant.{count}
use rbsc.LabelStore.{LabelStore, init, label, volume, update, fetch_sub, fetch_add}

-- All labels are nodes, and the volumes are right.
pub record IsLabelling (n : ℕ) (s : LabelStore) : Type 0 where
  pub sized : length s.labels ≡ n
  pub volumes_sized : length s.volumes ≡ n
  pub inside : All (λ l. l < n) s.labels
  pub counted : (l : ℕ) → l < n → volume s l ≡ some (count l s.labels)

count_le : (l : ℕ) (xs : List ℕ) → count l xs ≤ length xs
count_le l [] = omega arith
count_le l (x ∷ xs) = elim (Bool-cases (x == l)) [
  | inl e ↦ rw e (omega (arith, count_le l xs))
  | inr e ↦ rw e (omega (arith, count_le l xs))
]

count-set :
    (l : ℕ) (xs : List ℕ) (i old new : ℕ)
    → get_elem? xs i ≡ some old
    → count l (set xs i new) + (if old == l then 1 else 0)
      ≡ count l xs + (if new == l then 1 else 0)
count-set l [] i old new e = cc
count-set l (x ∷ xs) zero old new e =
    let same : x ≡ old = some-injective x old e in rw same (omega arith)
count-set l (x ∷ xs) (suc i) old new e = omega (arith, count-set l xs i old new e)

module _ (volumes : List ℕ) (v at : ℕ) (e : get_elem? volumes at ≡ some v) where
  fetch_sub-some : 0 < v → v < 2 ^ 64 → fetch_sub volumes at ≡ some (set volumes at (v - 1))
  unfolding fetch_sub
  fetch_sub-some pos small =
      let wrapped : (v + 2 ^ 64 - 1) % 2 ^ 64 ≡ v - 1 = omega arith in rw (e, wrapped) refl

  fetch_add-some : v + 1 < 2 ^ 64 → fetch_add volumes at ≡ some (set volumes at (v + 1))
  unfolding fetch_add
  fetch_add-some small =
      let wrapped : (v + 1) % 2 ^ 64 ≡ v + 1 = omega arith in rw (e, wrapped) refl

pub get-set :
    (xs : List ℕ) (i j v : ℕ)
    → i < length xs
    → get_elem? (set xs i v) j ≡ (if i == j then some v else get_elem? xs j)
get-set xs i j v h = elim (Bool-cases (i == j)) [
  | inl same ↦
      let e : i ≡ j = ground arith in
      rw same (subst (λ (k : ℕ). get_elem? (set xs i v) k ≡ some v) e (get_elem?-set_self xs i v h))
  | inr other ↦ rw other (get_elem?-set_ne xs i j v (λ e. ground arith))
]

range-All : (start n bound : ℕ) → start + n ≤ bound → All (λ l. l < bound) (range start n)
range-All start zero bound h = tt
range-All start (suc n) bound h = (omega arith, range-All (suc start) n bound (omega arith))

count-range_below : (l start n : ℕ) → l < start → count l (range start n) ≡ 0
count-range_below l start zero h = refl
count-range_below l start (suc n) h =
    let other : (start == l) ≡ false = ground arith in
    rw other (omega (arith, count-range_below l (suc start) n (omega arith)))

pub count-range : (l start n : ℕ) → start ≤ l → l < start + n → count l (range start n) ≡ 1
count-range l start zero h k = absurd (omega arith)
count-range l start (suc n) h k = elim (Bool-cases (start == l)) [
  | inl e ↦ rw e (omega (arith, count-range_below l (suc start) n (ground arith)))
  | inr e ↦ rw e (omega (arith, count-range l (suc start) n (ground arith) (omega arith)))
]

pub get-replicate : (n i v : ℕ) → i < n → get_elem? (replicate n v) i ≡ some v
get-replicate zero i v h = elim h [ ]
get-replicate (suc n) zero v h = refl
get-replicate (suc n) (suc i) v h = get-replicate n i v (omega arith)

-- After `init`, each node is alone with its label, whatever the store held.
pub init-IsLabelling :
    (n : ℕ) (s : LabelStore)
    → length s.labels ≡ n
    → length s.volumes ≡ n
    → IsLabelling n (init s) × ((v : ℕ) → v < n → volume (init s) v ≡ some 1)
unfolding init volume
init-IsLabelling n s hl hv = (
  record {
    sized = length-range 0 (length s.labels) ∙ hl;
    volumes_sized = length-replicate (length s.volumes) 1 ∙ hv;
    inside = range-All 0 (length s.labels) n (omega (arith, hl));
    counted = λ l h.
        get-replicate (length s.volumes) l 1 (omega (arith, hv))
        ∙ ap some (sym (count-range l 0 (length s.labels) (omega arith) (omega (arith, hl))));
  },
  λ v h. get-replicate (length s.volumes) v 1 (omega (arith, hv)),
)

pub count_pos : (xs : List ℕ) (i v : ℕ) → get_elem? xs i ≡ some v → 0 < count v xs
count_pos [] i v e = cc
count_pos (x ∷ xs) zero v e =
    let same : (x == v) ≡ true = let s = some-injective x v e in ground arith in
    rw same (omega arith)
count_pos (x ∷ xs) (suc i) v e = omega (arith, count_pos xs i v e)

-- The volume of a label between the two atomic operations.
between : LabelStore → ℕ → ℕ → ℕ
between s old l = if old == l then count old s.labels - 1 else count l s.labels

moved_count :
    (s : LabelStore) (node old new l : ℕ)
    → get_elem? s.labels node ≡ some old
    → (if new == l then between s old new + 1 else between s old l)
      ≡ count l (set s.labels node new)
unfolding between
moved_count s node old new l e =
    let moved = count-set l s.labels node old new e in
    let positive = count_pos s.labels node old e in
    let same_count : (j : ℕ) → (j == l) ≡ true → count j s.labels ≡ count l s.labels =
      λ j h. let is_l : j ≡ l = ground arith in ap (λ (x : ℕ). count x s.labels) is_l in
    elim (Bool-cases (old == l)) [
      | inl here ↦
          let c = same_count old here in
          elim (Bool-cases (new == l)) [
            | inl there ↦
                let agree : (old == new) ≡ true = ground arith in
                let m : count l (set s.labels node new) + 1 ≡ count l s.labels + 1 =
                  rw (here, there) at moved in
                rw (there, agree) (omega (arith, m, c, positive))
            | inr there ↦
                let m : count l (set s.labels node new) + 1 ≡ count l s.labels + 0 =
                  rw (here, there) at moved in
                rw (there, here) (omega (arith, m, c, positive))
          ]
      | inr here ↦ elim (Bool-cases (new == l)) [
        | inl there ↦
            let c = same_count new there in
            let differ : (old == new) ≡ false = ground arith in
            let m : count l (set s.labels node new) + 0 ≡ count l s.labels + 1 =
              rw (here, there) at moved in
            rw (there, differ) (omega (arith, m, c))
        | inr there ↦
            let m : count l (set s.labels node new) + 0 ≡ count l s.labels + 0 =
              rw (here, there) at moved in
            rw (there, here) (omega (arith, m))
      ]
    ]

between_le : (s : LabelStore) (old l n : ℕ) → IsLabelling n s → between s old l ≤ n
unfolding between
between_le s old l n i = elim (Bool-cases (old == l)) [
  | inl e ↦ rw e (omega (arith, count_le old s.labels, i.sized))
  | inr e ↦ rw e (omega (arith, count_le l s.labels, i.sized))
]

between-get :
    (s : LabelStore) (old l n : ℕ)
    → IsLabelling n s
    → old < n
    → l < n
    → get_elem? (set s.volumes old (count old s.labels - 1)) l ≡ some (between s old l)
unfolding between volume
between-get s old l n i ho h =
    get-set s.volumes old l (count old s.labels - 1) (omega (arith, i.volumes_sized))
    ∙ elim (Bool-cases (old == l)) [ inl e ↦ rw e refl | inr e ↦ rw e (i.counted l h) ]

-- A node gets a new label, both below the number of nodes: no index is out of range, no volume wraps
-- around, the label of that node is the new one and that of any other node is kept, and the volumes still
-- count the nodes of each label.
pub update-IsLabelling :
    (n : ℕ) (s : LabelStore) (node new_label : ℕ)
    → n + 1 < 2 ^ 64
    → IsLabelling n s
    → node < n
    → new_label < n
    → (s' : LabelStore) × (update s node new_label ≡ some s')
      × IsLabelling n s'
      × ((v : ℕ) → label s' v ≡ (if node == v then some new_label else label s v))
unfolding update label volume
update-IsLabelling n s node new_label small i hn hl =
    let (old, e) = get_elem?-lt s.labels node (omega (arith, i.sized)) in
    let old_in : old < n = All-get_elem? (λ l. l < n) s.labels node old i.inside e in
    let vols = s.volumes in
    let old_size : count old s.labels ≤ n = omega (arith, count_le old s.labels, i.sized) in
    let smaller = set vols old (count old s.labels - 1) in
    let sub =
      fetch_sub-some vols (count old s.labels) old (i.counted old old_in)
        (count_pos s.labels node old e) (omega arith) in
    let at_smaller : (l : ℕ) → l < n → get_elem? smaller l ≡ some (between s old l) =
      λ l h. between-get s old l n i old_in h in
    let m = between s old new_label in
    let m_size : m ≤ n = between_le s old new_label n i in
    let add = fetch_add-some smaller m new_label (at_smaller new_label hl) (omega arith) in
    let s' : LabelStore = record {
      labels = set s.labels node new_label;
      volumes = set smaller new_label (m + 1);
    } in
    (
      s',
      rw (e, sub, add) refl,
      record {
        sized = length-set s.labels node new_label ∙ i.sized;
        volumes_sized =
            length-set smaller new_label (m + 1)
            ∙ length-set vols old (count old s.labels - 1)
            ∙ i.volumes_sized;
        inside = All-set (λ l. l < n) s.labels node new_label i.inside hl;
        counted = λ l h.
            get-set smaller new_label l (m + 1)
              (omega (arith, length-set vols old (count old s.labels - 1), i.volumes_sized))
            ∙ elim (Bool-cases (new_label == l)) [
              | inl e' ↦
                  let c = moved_count s node old new_label l e in
                  let c' : m + 1 ≡ count l (set s.labels node new_label) = rw e' at c in
                  rw e' (ap some c')
              | inr e' ↦
                  let c = moved_count s node old new_label l e in
                  let c' : between s old l ≡ count l (set s.labels node new_label) = rw e' at c in
                  rw e' (at_smaller l h ∙ ap some c')
            ];
      },
      λ v. get-set s.labels node v new_label (omega (arith, i.sized)),
    )
