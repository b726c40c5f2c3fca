-- ===== src/User/Database/Filled.antt =====
-- What the loops over the rows, in user/atdr_linux/atdr_db.c, leave in a table: the row `i` in the
-- entry `i`.
use greko.Base.{
  ℕ, zero, suc, ◌+◌, ◌^◌, ◌≤◌, ◌<◌, ◌≡◌, refl, ap, ap₂, ◌∙◌, Bool, true, false, Option, none, some,
  List, [], ◌∷◌, map, ltb, arith, update, update_self, update_ne, >>=-some,
}
use mathlib.Core.Option.{some-injective}
use greko.Base.Text.{decimal}
use greko.Adm.{length}
use greko.User.Types.{PartnerState, RepState}
use greko.User.Server.{Partner, max_partners}
use greko.User.Client.{TargetDisk, Replication}
use greko.User.Client.Requests.{scan_number, to_int, to_ulong}
use greko.User.Client.Requests.Scanning.{is_word, scan_word-whole, scan_number-whole}
use greko.User.Database.{Row, of_partner_state, of_rep_state}
use greko.User.Database.Rows.{
  fill, scan_name, to_uint, to_partner_state, to_rep_state, read_partner, read_resync,
}
use greko.User.Database.Tables.{PartnerRow, ResyncRow, Each, partner_text, resync_text}

-- The element of a list at an index.
unfoldable pub get_elem? {ℓ} : {A : Type ℓ} → List A → ℕ → Option A
get_elem? [] k = none
get_elem? (a ∷ rest) zero = some a
get_elem? (a ∷ rest) (suc k) = get_elem? rest k

module _ {T E : Type 0} (shown : T → Row) (read : Row → E → Option E) (store : T → E → E) where
  -- A row that is read as it was written.
  abbrev pub IsRead : T → Type 0
  IsRead t = (e : E) → read (shown t) e ≡ some (store t e)

  -- The entries from `i` on hold the rows, and the others are as they were.
  pub record Filled (i : ℕ) (rows : List T) (f g : ℕ → E) : Type 0 where
    pub holds : (k : ℕ) (t : T) → get_elem? rows k ≡ some t → g (i + k) ≡ store t (f (i + k))
    pub before : (j : ℕ) → j < i → g j ≡ f j
    pub after : (j : ℕ) → i + length rows ≤ j → g j ≡ f j

  same_after : (i : ℕ) (f : ℕ → E) (e : E) (j : ℕ) → i < j → update f i e j ≡ f j
  same_after i f e j lt = update_ne f i j e (λ eq. absurd (omega (arith, lt, eq)))

  holds-more :
      (t : T) (rest : List T) (i : ℕ) (f g : ℕ → E)
      → Filled (suc i) rest (update f i (store t (f i))) g
      → (k : ℕ) (r : T) → get_elem? (t ∷ rest) k ≡ some r
      → g (i + k) ≡ store r (f (i + k))
  unfolding get_elem? length
  holds-more t rest i f g filled zero r e =
      ap g (omega arith)
      ∙ filled.before i (omega arith)
      ∙ update_self f i (store t (f i))
      ∙ ap₂ store (some-injective _ _ e) (ap f (omega arith))
  holds-more t rest i f g filled (suc k) r e =
      ap g (omega arith)
      ∙ filled.holds k r e
      ∙ ap (store r) (same_after i f (store t (f i)) (suc i + k) (omega arith) ∙ ap f (omega arith))

  Filled-more :
      (t : T) (rest : List T) (i : ℕ) (f g : ℕ → E)
      → Filled (suc i) rest (update f i (store t (f i))) g
      → Filled i (t ∷ rest) f g
  unfolding get_elem? length
  Filled-more t rest i f g filled = record {
    holds = holds-more t rest i f g filled;
    before = λ j lt.
        filled.before j (omega (arith, lt))
        ∙ update_ne f i j _ (λ e. absurd (omega (arith, lt, e)));
    after = λ j le. filled.after j (omega (arith, le)) ∙ same_after i f _ j (omega (arith, le));
  }

  pub fill-Filled :
      (rows : List T) (i : ℕ) (f : ℕ → E)
      → Each IsRead rows
      → i + length rows ≤ max_partners
      → (g : ℕ → E) × (fill read (map shown rows) i f ≡ some (i + length rows, g))
        × Filled i rows f g
  unfolding fill length get_elem?
  fill-Filled [] i f each le = (
    f,
    ap (λ n. some (n, f)) (omega arith),
    record { holds = λ k t e. absurd (cc e); before = λ j lt. refl; after = λ j lt. refl },
  )
  fill-Filled (t ∷ rest) i f (here, more) le =
      let f1 = update f i (store t (f i)) in
      let (g, run, filled) = fill-Filled rest (suc i) f1 more (omega (arith, le)) in
      let room : ltb i max_partners ≡ true = ground arith in
      (
        g,
        rw room (>>=-some _ (here (f i)) ∙ run ∙ ap (λ n. some (n, g)) (omega arith)),
        Filled-more t rest i f g filled,
      )

-- The rows that are read as they were written: ids are those of an `int` that is not negative, states
-- are those of their enumeration, numbers those of an `unsigned long`, and texts words that fit into an
-- array of 64 bytes.
abbrev pub IsReadable : PartnerRow → Type 0
IsReadable r =
    (r.pid < 2 ^ 31)
    × (r.state < 6)
    × ((is_word r.ip ≡ true) × (length r.ip < 64))
    × (r.bandwidth < 2 ^ 64)

abbrev pub IsReadableResync : ResyncRow → Type 0
IsReadableResync r =
    (r.state < 4)
    × ((is_word r.target_disk ≡ true) × (length r.target_disk < 64))
    × (r.bit < 2 ^ 64)

-- The state of a number, which is a state.
abbrev pub partner_state : ℕ → PartnerState
partner_state n = elim (to_partner_state n) [ none ↦ PartnerState.free | some s ↦ s ]

abbrev pub rep_state_of : ℕ → RepState
rep_state_of n = elim (to_rep_state n) [ none ↦ RepState.in_progress | some s ↦ s ]

-- The entry that a row leaves.
abbrev pub store_partner : PartnerRow → Partner → Partner
store_partner r p = record p {
  id = r.pid;
  obj_state = partner_state r.state;
  ip = r.ip;
  bandwidth = r.bandwidth;
}

abbrev pub store_resync : ResyncRow → Replication × TargetDisk → Replication × TargetDisk
store_resync r (c, d) = (
  record c { last_resynced_bit = r.bit; rep_state = rep_state_of r.state },
  record d { name = r.target_disk },
)

int_of : (n : ℕ) → n < 2 ^ 31 → to_int false n ≡ n
int_of n lt = ground arith

uint_of : (n : ℕ) → n < 2 ^ 31 → to_uint false n ≡ n
uint_of n lt = ground arith

ulong_of : (n : ℕ) → n < 2 ^ 64 → to_ulong false n ≡ n
ulong_of n lt = ground arith

partner_state-some : (n : ℕ) → n < 6 → to_partner_state n ≡ some (partner_state n)
partner_state-some n lt = ground arith

rep_state-some : (n : ℕ) → n < 4 → to_rep_state n ≡ some (rep_state_of n)
rep_state-some n lt = ground arith

scanned :
    (convert : Bool → ℕ → ℕ) (old n : ℕ)
    → n < 2 ^ 64
    → convert false n ≡ n
    → (scan_number convert old (some (decimal n))).0 ≡ n
scanned convert old n lt e = ap (λ r. r.0) (scan_number-whole convert old n (omega (arith, lt))) ∙ e

scan_name-whole : (old w : List ℕ) → is_word w ≡ true → length w < 64 → scan_name old w ≡ some w
scan_name-whole old w h lt = >>=-some _ (scan_word-whole 64 old w h lt)

pub read_partner-IsRead :
    (r : PartnerRow) → IsReadable r → IsRead partner_text read_partner store_partner r
unfolding read_partner
read_partner-IsRead r (i, s, (word, small), b) p =
    rw
      (
        scanned to_uint (of_partner_state p.obj_state) r.state (omega (arith, s))
            (uint_of r.state (omega (arith, s))),
        partner_state-some r.state s,
        scan_name-whole p.ip r.ip word small,
        scanned to_int p.id r.pid (omega (arith, i)) (int_of r.pid i),
        scanned to_ulong p.bandwidth r.bandwidth b (ulong_of r.bandwidth b),
      )
      refl

pub read_resync-IsRead :
    (r : ResyncRow) → IsReadableResync r → IsRead resync_text read_resync store_resync r
unfolding read_resync
read_resync-IsRead r (s, (word, small), b) (c, d) =
    rw
      (
        scan_name-whole d.name r.target_disk word small,
        scanned to_uint (of_rep_state c.rep_state) r.state (omega (arith, s))
            (uint_of r.state (omega (arith, s))),
        rep_state-some r.state s,
        scanned to_ulong c.last_resynced_bit r.bit b (ulong_of r.bit b),
      )
      refl
