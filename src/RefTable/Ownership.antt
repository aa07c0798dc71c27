-- ===== src/RefTable/Ownership.antt =====
-- Which object a reference stands for.
use libpinggy.Prelude.{
  ℕ, zero, suc, ◌+◌, ◌-◌, ◌*◌, ◌≤◌, ◌<◌, ◌≡◌, ◌≢◌, refl, ap, ◌∙◌, sym, subst, true, leb, ◌==◌, List,
  [], ◌∷◌, ◌++◌, if◌then◌else◌, length, get_elem?, set, Option, none, some, All, arith,
}
use libpinggy.RefTable.{
  RefTable, nothings, numbers_from, grow, take_ref, grow_if_empty, get_ref, entry, get_obj,
  remove_ref, new_ref_table,
}

abbrev AllDistinct : List ℕ → Type 0
AllDistinct [] = Unit
AllDistinct (x ∷ xs) = All (λ y. y ≢ x) xs × AllDistinct xs

-- The free references are different places of the table, and no object is there.
pub record IsSound (t : RefTable) : Type 0 where
  pub vacant : All (λ ref. get_elem? t.table ref ≡ some none) t.free_list
  pub distinct : AllDistinct t.free_list

get_elem-set :
    (xs : List (Option ℕ)) (i j : ℕ) (v : Option ℕ)
    → get_elem? (set xs i v) j
      ≡ (if i == j then (if leb (length xs) i then none else some v) else get_elem? xs j)
get_elem-set [] i j v = ground arith
get_elem-set (x ∷ xs) zero zero v = ground arith
get_elem-set (x ∷ xs) zero (suc j) v = ground arith
get_elem-set (x ∷ xs) (suc i) zero v = ground arith
get_elem-set (x ∷ xs) (suc i) (suc j) v = ground (arith, get_elem-set xs i j v)

length-set : (xs : List (Option ℕ)) (i : ℕ) (v : Option ℕ) → length (set xs i v) ≡ length xs
length-set [] i v = refl
length-set (x ∷ xs) zero v = refl
length-set (x ∷ xs) (suc i) v = ap suc (length-set xs i v)

get_elem-length :
    (xs : List (Option ℕ)) (i : ℕ) {e : Option ℕ} → get_elem? xs i ≡ some e → i < length xs
get_elem-length [] i h = absurd (ground arith)
get_elem-length (x ∷ xs) zero h = omega arith
get_elem-length (x ∷ xs) (suc i) {e} h = omega (arith, get_elem-length xs i {e = e} h)

get_elem-nothings : (n i : ℕ) → i < n → get_elem? (nothings n) i ≡ some none
unfolding nothings
get_elem-nothings zero i h = absurd (omega arith)
get_elem-nothings (suc n) zero h = refl
get_elem-nothings (suc n) (suc i) h = get_elem-nothings n i (omega arith)

get_elem-append_right :
    (xs ys : List (Option ℕ)) (i : ℕ) → get_elem? (xs ++ ys) (length xs + i) ≡ get_elem? ys i
get_elem-append_right [] ys i = ap (get_elem? ys) (omega arith)
get_elem-append_right (x ∷ xs) ys i = ground (arith, get_elem-append_right xs ys i)

All-both {κ} :
    (P Q R : ℕ → Type κ) (xs : List ℕ)
    → ((x : ℕ) → P x → Q x → R x)
    → All P xs
    → All Q xs
    → All R xs
All-both P Q R [] f p q = tt
All-both P Q R (x ∷ xs) f p q = (f x p.0 q.0, All-both P Q R xs f p.1 q.1)

All-append {κ} : (P : ℕ → Type κ) (xs : List ℕ) (y : ℕ) → All P xs → P y → All P (xs ++ (y ∷ []))
All-append P [] y p h = (h, tt)
All-append P (x ∷ xs) y p h = (p.0, All-append P xs y p.1 h)

distinct-append :
    (xs : List ℕ) (y : ℕ) → AllDistinct xs → All (λ x. x ≢ y) xs → AllDistinct (xs ++ (y ∷ []))
distinct-append [] y d n = (tt, tt)
distinct-append (x ∷ xs) y d n =
    (All-append (λ z. z ≢ x) xs y d.0 (λ e. n.0 (sym e)), distinct-append xs y d.1 n.1)

above : (j i n : ℕ) → j < i → All (λ y. y ≢ j) (numbers_from i n)
unfolding numbers_from
above j i zero h = tt
above j i (suc n) h = ((λ e. absurd (omega (arith, e))), above j (suc i) n (omega arith))

distinct-numbers : (i n : ℕ) → AllDistinct (numbers_from i n)
unfolding numbers_from
distinct-numbers i zero = tt
distinct-numbers i (suc n) = (above i (suc i) n (omega arith), distinct-numbers (suc i) n)

vacant-numbers :
    (xs : List (Option ℕ)) (k i j n : ℕ)
    → j ≡ length xs + i
    → i + n ≤ k
    → All (λ ref. get_elem? (xs ++ nothings k) ref ≡ some none) (numbers_from j n)
unfolding numbers_from
vacant-numbers xs k i j zero e h = tt
vacant-numbers xs k i j (suc n) e h = (
  ap (get_elem? (xs ++ nothings k)) e
      ∙ get_elem-append_right xs (nothings k) i
      ∙ get_elem-nothings k i (omega arith),
  vacant-numbers xs k (suc i) (suc j) n (omega (arith, e)) (omega arith),
)

entry-nothings : (n q : ℕ) → entry (get_elem? (nothings n) q) ≡ none
unfolding nothings
entry-nothings zero q = refl
entry-nothings (suc n) zero = refl
entry-nothings (suc n) (suc q) = entry-nothings n q

entry-grown :
    (xs : List (Option ℕ)) (n q : ℕ)
    → entry (get_elem? (xs ++ nothings n) q) ≡ entry (get_elem? xs q)
entry-grown [] n q = entry-nothings n q
entry-grown (x ∷ xs) n zero = refl
entry-grown (x ∷ xs) n (suc q) = entry-grown xs n q

-- A table in which a reference is free, and that holds the same objects as `t`.
record Room (t u : RefTable) : Type 0 where
  ref : ℕ
  refs : List ℕ
  front : u.free_list ≡ ref ∷ refs
  sound : IsSound u
  same : (q : ℕ) → get_obj q u ≡ get_obj q t

grow-Room : (t : RefTable) → t.free_list ≡ [] → Room t (grow t)
unfolding grow get_obj numbers_from
grow-Room t h =
    let n : ℕ = length t.table in
    let k : ℕ = (if n == 0 then 1024 else n * 2) - n in
    let more : k ≡ suc (k - 1) = ground arith in
    record {
      ref = n;
      refs = numbers_from (suc n) (k - 1);
      front = ap (λ l. l ++ numbers_from n k) h ∙ ap (numbers_from n) more;
      sound = record {
        vacant =
            subst
              (λ l.
                All (λ ref. get_elem? (t.table ++ nothings k) ref ≡ some none)
                  (l ++ numbers_from n k))
              (sym h) (vacant-numbers t.table k 0 n k (omega arith) (omega arith));
        distinct = subst (λ l. AllDistinct (l ++ numbers_from n k)) (sym h) (distinct-numbers n k);
      };
      same = entry-grown t.table k;
    }

room : (t : RefTable) → IsSound t → Room t (grow_if_empty t.free_list t)
unfolding grow_if_empty
room t s = go t.free_list refl
  where
    go : (free : List ℕ) → t.free_list ≡ free → Room t (grow_if_empty free t)
    go [] e = grow-Room t e
    go (ref ∷ refs) e = record { ref = ref; refs = refs; front = e; sound = s; same = λ q. refl }

-- `GetRef` on a sound table gives a reference at which there was no object; it stands for the object
-- then, every other reference stands for what it stood for, and the table stays sound.
pub get_ref-fresh :
    (ptr q : ℕ) (t : RefTable)
    → IsSound t
    → (u : RefTable) × (ref : ℕ) × (get_ref ptr t ≡ (u, ref))
      × (get_obj ref t ≡ none)
      × (get_obj q u ≡ (if q == ref then some ptr else get_obj q t))
      × IsSound u
unfolding get_ref take_ref get_obj
get_ref-fresh ptr q t s =
    let g : RefTable = grow_if_empty t.free_list t in
    let r = room t s in
    let vacant =
      subst (λ l. All (λ ref. get_elem? g.table ref ≡ some none) l) r.front r.sound.vacant in
    let distinct = subst AllDistinct r.front r.sound.distinct in
    let u : RefTable = record { table = set g.table r.ref (some ptr); free_list = r.refs } in
    let inside = get_elem-length g.table r.ref {e = none} vacant.0 in
    (
      u,
      r.ref,
      rw (r.front, take_ref) refl,
      sym (r.same r.ref) ∙ ap entry vacant.0,
      ground (arith, get_elem-set g.table r.ref q (some ptr), r.same q, inside),
      record {
        vacant =
            All-both (λ x. get_elem? g.table x ≡ some none) (λ x. x ≢ r.ref)
              (λ x. get_elem? u.table x ≡ some none) r.refs
              (λ x v d. ground (arith, get_elem-set g.table r.ref x (some ptr), v, d)) vacant.1
              distinct.0;
        distinct = distinct.1;
      },
    )

entry-some : (o : Option (Option ℕ)) {ptr : ℕ} → entry o ≡ some ptr → o ≡ some (some ptr)
entry-some none h = absurd (ground arith)
entry-some (some e) h = ap some h

-- `RemoveRef` of a reference that stands for an object, on a sound table, succeeds; the reference
-- stands for nothing then, every other one for what it stood for, and the table stays sound.
pub remove_ref-frees :
    (ref ptr q : ℕ) (t : RefTable)
    → IsSound t
    → get_obj ref t ≡ some ptr
    → (u : RefTable) × (remove_ref ref t ≡ (u, true))
      × (get_obj q u ≡ (if q == ref then none else get_obj q t))
      × IsSound u
unfolding remove_ref get_obj
remove_ref-frees ref ptr q t s h =
    let u : RefTable = record {
      table = set t.table ref none;
      free_list = t.free_list ++ (ref ∷ []);
    } in
    let held : get_elem? t.table ref ≡ some (some ptr) = entry-some (get_elem? t.table ref) h in
    let inside = get_elem-length t.table ref {e = some ptr} held in
    (
      u,
      ground arith,
      ground (arith, get_elem-set t.table ref q none, inside),
      record {
        vacant =
            All-append (λ x. get_elem? u.table x ≡ some none) t.free_list ref
              (All-both (λ x. get_elem? t.table x ≡ some none)
                (λ x. get_elem? t.table x ≡ some none) (λ x. get_elem? u.table x ≡ some none)
                t.free_list (λ x v w. ground (arith, get_elem-set t.table ref x none, v, inside))
                s.vacant s.vacant)
              (ground (arith, get_elem-set t.table ref ref none, inside));
        distinct = distinct-append t.free_list ref s.distinct (
            All-both (λ x. get_elem? t.table x ≡ some none) (λ x. get_elem? t.table x ≡ some none)
              (λ x. x ≢ ref) t.free_list (λ x v w e. cc (e, v, held)) s.vacant s.vacant);
      },
    )

-- When no reference is free, a second `RemoveRef` of the same reference makes the next two calls of
-- `GetRef` answer with that one reference for two objects.
pub removed_twice-shared :
    (ref ptr a b : ℕ) (t : RefTable)
    → get_obj ref t ≡ some ptr
    → t.free_list ≡ []
    → ((get_ref a (remove_ref ref (remove_ref ref t).0).0).1 ≡ ref)
      × ((get_ref b (get_ref a (remove_ref ref (remove_ref ref t).0).0).0).1 ≡ ref)
unfolding remove_ref get_ref take_ref grow_if_empty get_obj
removed_twice-shared ref ptr a b t h e =
    let held = entry-some (get_elem? t.table ref) h in
    let inside = get_elem-length t.table ref {e = some ptr} held in
    let still : length (set t.table ref none) ≡ length t.table = length-set t.table ref none in
    (ground (arith, inside, still), ground (arith, inside, still))

-- A new table is sound.
new_ref_table-IsSound : IsSound new_ref_table
unfolding new_ref_table
new_ref_table-IsSound = (grow-Room (record { table = []; free_list = [] }) refl).sound
