-- ===== src/User/Database/Followed.antt =====
-- A table of user/atdr_linux/atdr_db.c whose rows were inserted in the order of their partner ids:
-- the row of a partner id is the one at that index, and what was last stored for it.
use greko.Base.{
  ℕ, zero, suc, ◌+◌, ◌≡◌, refl, sym, ap, ◌∙◌, Bool, true, false, Option, none, some, List, [], ◌∷◌,
  ◌++◌, map, ◌==◌, if◌then◌else◌, arith, if_holds,
}
use mathlib.Core.Option.{some-injective}
use mathlib.Core.Path.{subst}
use greko.Adm.{length}
use greko.User.Database.Tables.{Change, changed, keep, Each}
use greko.User.Database.Filled.{get_elem?}

abbrev map_option : {T : Type 0} → (T → T) → Option T → Option T
map_option f none = none
map_option f (some a) = some (f a)

module _ {T : Type 0} (pid : T → ℕ) where
  -- What a change does to the row of a partner id.
  abbrev pub followed : ℕ → Change T → Option T → Option T
  followed k (Change.add r) o = if pid r == k then some r else o
  followed k (Change.revise n f) o = if n == k then map_option f o else o
  followed k (Change.remove n) o = if n == k then none else o
  followed k Change.leave o = o

  -- The row of a partner id after the changes: the one last inserted for it, with what was revised since.
  unfoldable pub last_row : ℕ → List (Change T) → Option T → Option T
  last_row k [] o = o
  last_row k (c ∷ rest) o = last_row k rest (followed k c o)

  -- The rows that changes insert are those of the partner ids from `n` on, in this order, and none is
  -- removed; a revision leaves the partner id.
  unfoldable pub Numbered : ℕ → List (Change T) → Type 0
  Numbered n [] = Unit
  Numbered n (Change.add r ∷ rest) = (pid r ≡ n) × Numbered (suc n) rest
  Numbered n (Change.revise m f ∷ rest) = ((r : T) → pid (f r) ≡ pid r) × Numbered n rest
  Numbered n (Change.remove m ∷ rest) = true ≡ false
  Numbered n (Change.leave ∷ rest) = Numbered n rest

  unfoldable pub inserted : List (Change T) → ℕ
  inserted [] = 0
  inserted (Change.add r ∷ rest) = suc (inserted rest)
  inserted (_ ∷ rest) = inserted rest

  unfoldable pub changes : List (Change T) → List T → List T
  changes [] rows = rows
  changes (c ∷ rest) rows = changes rest (changed pid c rows)

  abbrev pub IsOrdered : List T → Type 0
  IsOrdered rows = (k : ℕ) (r : T) → get_elem? rows k ≡ some r → pid r ≡ k

  get_elem?-append :
      (rows : List T) (r : T) (k : ℕ)
      → get_elem? (rows ++ (r ∷ [])) k ≡ (if length rows == k then some r else get_elem? rows k)
  unfolding get_elem? length
  get_elem?-append [] r zero = ground arith
  get_elem?-append [] r (suc k) = ground arith
  get_elem?-append (a ∷ rows) r zero = ground arith
  get_elem?-append (a ∷ rows) r (suc k) = let more = get_elem?-append rows r k in ground arith

  get_elem?-map :
      (f : T → T) (rows : List T) (k : ℕ)
      → get_elem? (map f rows) k ≡ map_option f (get_elem? rows k)
  unfolding get_elem?
  get_elem?-map f [] k = refl
  get_elem?-map f (a ∷ rows) zero = refl
  get_elem?-map f (a ∷ rows) (suc k) = get_elem?-map f rows k

  length-map : (f : T → T) (rows : List T) → length (map f rows) ≡ length rows
  unfolding length
  length-map f [] = refl
  length-map f (a ∷ rows) = ap suc (length-map f rows)

  length-append : (rows : List T) (r : T) → length (rows ++ (r ∷ [])) ≡ suc (length rows)
  unfolding length
  length-append [] r = refl
  length-append (a ∷ rows) r = ap suc (length-append rows r)

  revised :
      (m k : ℕ) (f : T → T) (o : Option T)
      → ((r : T) → o ≡ some r → pid r ≡ k)
      → map_option (λ r. if pid r == m then f r else r) o ≡ followed k (Change.revise m f) o
  revised m k f none h = ground arith
  revised m k f (some r) h = let e = h r refl in ground arith

  -- The rows after a change, when all before it were in order.
  changed-followed :
      (c : Change T) (rest : List (Change T)) (rows : List T) (k : ℕ)
      → IsOrdered rows
      → Numbered (length rows) (c ∷ rest)
      → get_elem? (changed pid c rows) k ≡ followed k c (get_elem? rows k)
  unfolding changed Numbered
  changed-followed (Change.add r) rest rows k o (e, n) =
      rw (get_elem?-append rows r k) (ground arith)
  changed-followed (Change.revise m f) rest rows k o n =
      get_elem?-map _ rows k ∙ revised m k f (get_elem? rows k) (o k)
  changed-followed (Change.remove m) rest rows k o n = absurd (cc n)
  changed-followed Change.leave rest rows k o n = refl

  followed-pid :
      (n k : ℕ) (c : Change T) (rest : List (Change T)) (o : Option T) (r : T)
      → Numbered n (c ∷ rest)
      → ((r : T) → o ≡ some r → pid r ≡ k)
      → followed k c o ≡ some r
      → pid r ≡ k
  unfolding Numbered
  followed-pid n k (Change.add a) rest o r num h e =
      if_holds (λ q. q ≡ some r → pid r ≡ k) (pid a == k) (some a) o
        (λ b q. let same = ap pid (some-injective a r q) in ground arith) (λ b. h r) e
  followed-pid n k (Change.revise m f) rest none r num h e =
      if_holds (λ q. q ≡ some r → pid r ≡ k) (m == k) none none (λ b. h r) (λ b. h r) e
  followed-pid n k (Change.revise m f) rest (some a) r (same, num) h e =
      if_holds (λ q. q ≡ some r → pid r ≡ k) (m == k) (some (f a)) (some a)
        (λ b q. ap pid (sym (some-injective (f a) r q)) ∙ same a ∙ h a refl) (λ b. h r) e
  followed-pid n k (Change.remove m) rest o r num h e = absurd (cc num)
  followed-pid n k Change.leave rest o r num h e = h r e

  changed-Numbered :
      (c : Change T) (rest : List (Change T)) (rows : List T)
      → Numbered (length rows) (c ∷ rest)
      → Numbered (length (changed pid c rows)) rest
  unfolding changed Numbered
  changed-Numbered (Change.add r) rest rows (e, n) = rw (length-append rows r) n
  changed-Numbered (Change.revise m f) rest rows (same, n) =
      rw (length-map (λ r. if pid r == m then f r else r) rows) n
  changed-Numbered (Change.remove m) rest rows n = absurd (cc n)
  changed-Numbered Change.leave rest rows n = n

  changes-last_row :
      (cs : List (Change T)) (rows : List T) (k : ℕ)
      → IsOrdered rows
      → Numbered (length rows) cs
      → get_elem? (changes cs rows) k ≡ last_row k cs (get_elem? rows k)
  unfolding changes last_row
  changes-last_row [] rows k o n = refl
  changes-last_row (c ∷ rest) rows k o n =
      let next : IsOrdered (changed pid c rows) = λ j r e.
        followed-pid (length rows) j c rest (get_elem? rows j) r n (o j)
          (sym (changed-followed c rest rows j o n) ∙ e) in
      changes-last_row rest (changed pid c rows) k next (changed-Numbered c rest rows n)
      ∙ ap (last_row k rest) (changed-followed c rest rows k o n)

  length-changes :
      (cs : List (Change T)) (rows : List T)
      → Numbered (length rows) cs
      → length (changes cs rows) ≡ length rows + inserted cs
  unfolding changes inserted Numbered changed
  length-changes [] rows n = omega arith
  length-changes (Change.add r ∷ rest) rows (e, n) =
      let more = length-changes rest (rows ++ (r ∷ [])) (rw (length-append rows r) n) in
      let here = length-append rows r in omega (arith, more, here)
  length-changes (Change.revise m f ∷ rest) rows (same, n) =
      let here = length-map (λ r. if pid r == m then f r else r) rows in
      let more = length-changes rest (map (λ r. if pid r == m then f r else r) rows) (rw here n) in
      omega (arith, more, here)
  length-changes (Change.remove m ∷ rest) rows n = absurd (cc n)
  length-changes (Change.leave ∷ rest) rows n = length-changes rest rows n

  pub keep-all :
      (p : T → Bool) (rows : List T)
      → ((k : ℕ) (r : T) → get_elem? rows k ≡ some r → p r ≡ true)
      → keep p rows ≡ rows
  unfolding get_elem?
  keep-all p [] h = refl
  keep-all p (a ∷ rows) h =
      rw (h 0 a refl) (ap (λ l. a ∷ l) (keep-all p rows (λ k r e. h (suc k) r e)))

  pub Each-all :
      (P : T → Type 0) (rows : List T)
      → ((k : ℕ) (r : T) → get_elem? rows k ≡ some r → P r)
      → Each P rows
  unfolding get_elem?
  Each-all P [] h = tt
  Each-all P (a ∷ rows) h = (h 0 a refl, Each-all P rows (λ k r e. h (suc k) r e))

  -- The table that was empty before the changes.
  pub last_row-rows :
      (cs : List (Change T)) (k : ℕ)
      → Numbered 0 cs
      → get_elem? (changes cs []) k ≡ last_row k cs none
  unfolding get_elem? length
  last_row-rows cs k n = changes-last_row cs [] k (λ j r e. absurd (cc e)) n

  pub length-rows : (cs : List (Change T)) → Numbered 0 cs → length (changes cs []) ≡ inserted cs
  unfolding length
  length-rows cs n = let e = length-changes cs [] n in omega (arith, e)

  Each-get :
      (P : T → Type 0) (rows : List T) (k : ℕ) (r : T)
      → Each P rows
      → get_elem? rows k ≡ some r
      → P r
  unfolding get_elem?
  Each-get P [] k r each e = absurd (cc e)
  Each-get P (a ∷ rows) zero r (here, more) e = subst P (some-injective a r e) here
  Each-get P (a ∷ rows) (suc k) r (here, more) e = Each-get P rows k r more e

  -- What holds of each row holds of the one that was stored last for a partner id.
  pub last_row-Each :
      (P : T → Type 0) (cs : List (Change T))
      → Numbered 0 cs
      → Each P (changes cs [])
      → (k : ℕ) (r : T) → last_row k cs none ≡ some r
      → P r
  last_row-Each P cs n each k r e = Each-get P (changes cs []) k r each (last_row-rows cs k n ∙ e)
