-- ===== src/User/Database/Texts.antt =====
-- The lengths of the statements of user/atdr_linux/atdr_db.c, against the arrays of 100 and 200
-- bytes that sprintf writes them to.
use greko.Base.{
  ℕ, zero, suc, ◌+◌, ◌/◌, ◌%◌, ◌^◌, ◌≤◌, ◌<◌, ◌≡◌, ap, ◌∙◌, true, false, Option, none, some, List,
  [], ◌∷◌, ◌++◌, ltb, refl, arith, if_holds, >>=-some, ◌>>=◌,
}
use native.Mathlib.Nat.{pow-suc}
use greko.Base.Text.{digits_of, decimal}
use greko.Adm.{length}
use greko.User.Database.{
  Sql, use_text, sprintf, pieces, printed_int, send_statement, insert_into_partner,
  update_into_partner, insert_into_relation, update_relation_state, insert_into_disk,
  update_into_disk, update_disk_state, insert_into_resync, update_into_resync, update_resync_state,
  delete_from_resync,
}
use greko.User.Database.Calls.{Call, perform, text_of, size_of, Fits, is_too_long}

abbrev total : List (List ℕ) → ℕ
total [] = 0
total (a ∷ rest) = length a + total rest

length-append : (a b : List ℕ) → length (a ++ b) ≡ length a + length b
unfolding length
length-append [] b = omega arith
length-append (x ∷ a) b = let more = length-append a b in omega (arith, more)

length-pieces : (l : List (List ℕ)) → length (pieces l) ≡ total l
unfolding length pieces
length-pieces [] = omega arith
length-pieces (a ∷ rest) =
    let here = length-append a (pieces rest) in
    let more = length-pieces rest in omega (arith, here, more)

-- A number with at most `k` digits.
length-digits_of :
    (f k n : ℕ) (rest : List ℕ) → n < 10 ^ suc k → length (digits_of f n rest) ≤ suc k + length rest
unfolding digits_of length
length-digits_of zero k n rest h = omega arith
length-digits_of (suc f) zero n rest h =
    let small : ltb n 10 ≡ true = ground arith in rw small (omega arith)
length-digits_of (suc f) (suc k) n rest h =
    if_holds {A = List ℕ} (λ l. length l ≤ suc (suc k) + length rest) (ltb n 10) _ _
      (λ b. omega arith)
      (λ b.
        let less : n / 10 < 10 ^ suc k = omega (arith, pow-suc 10 (suc k)) in
        let more = length-digits_of f k (n / 10) ((48 + n % 10) ∷ rest) less in omega (arith, more))

length-grows : (f n : ℕ) (rest : List ℕ) → length rest ≤ length (digits_of f n rest)
unfolding digits_of length
length-grows zero n rest = omega arith
length-grows (suc f) n rest =
    if_holds {A = List ℕ} (λ l. length rest ≤ length l) (ltb n 10) _ _ (λ b. omega arith)
      (λ b. let more = length-grows f (n / 10) ((48 + n % 10) ∷ rest) in omega (arith, more))

decimal-some : (n : ℕ) → 1 ≤ length (decimal n)
unfolding digits_of decimal length
decimal-some n =
    if_holds {A = List ℕ} (λ l. 1 ≤ length l) (ltb n 10) _ _ (λ b. omega arith)
      (λ b. let more = length-grows 19 (n / 10) ((48 + n % 10) ∷ []) in omega (arith, more))

decimal-short : (k n : ℕ) → n < 10 ^ suc k → length (decimal n) ≤ suc k
unfolding decimal length
decimal-short k n h = let e = length-digits_of 20 k n [] h in omega (arith, e)

printed-some : (n : ℕ) → 1 ≤ length (printed_int n)
unfolding length
printed-some n =
    if_holds {A = List ℕ} (λ l. 1 ≤ length l) (ltb n (2 ^ 31)) _ _ (λ b. decimal-some n)
      (λ b. omega arith)

printed-short : (k n : ℕ) → k < 9 → n < 10 ^ suc k → n < 2 ^ 31 → length (printed_int n) ≤ suc k
printed-short k n lt h small =
    let int : ltb n (2 ^ 31) ≡ true = ground arith in rw int (decimal-short k n h)

pub id-short : (n : ℕ) → n < 10 ^ 4 → length (printed_int n) ≤ 4
id-short n h = printed-short 3 n (omega arith) h (omega arith)

pub digit-short : (n : ℕ) → n < 10 → length (printed_int n) ≤ 1
digit-short n h = printed-short 0 n (omega arith) (omega arith) (omega arith)

pub long-short : (n : ℕ) → n < 2 ^ 64 → length (decimal n) ≤ 20
long-short n h = decimal-short 19 n (omega arith)

short : (l : List (List ℕ)) (n : ℕ) → total l < n → length (pieces l) < n
short l n h = let e = length-pieces l in omega (arith, e)

long : (l : List (List ℕ)) (n : ℕ) → n ≤ total l → n ≤ length (pieces l)
long l n h = let e = length-pieces l in omega (arith, e)

text-Fits : (c : Call) → Fits c → length (text_of c) < size_of c
unfolding length
text-Fits (Call.insert_partner pid state ip bandwidth) (i, s, a, b) =
    short _ 200 (omega (arith, id-short pid i, digit-short state s, long-short bandwidth b))
text-Fits (Call.update_partner pid state) (i, s) =
    short _ 100 (omega (arith, id-short pid i, digit-short state s))
text-Fits (Call.insert_relation role pid rid state disk bitmap_size grain_size chunk_size)
      (o, i, r, s, d, b, g, c) =
    short _ 200 (
      omega (
        arith,
        digit-short role o,
        id-short pid i,
        id-short rid r,
        digit-short state s,
        long-short bitmap_size b,
        long-short grain_size g,
        long-short chunk_size c,
      ))
text-Fits (Call.update_relation pid state) (i, s) =
    short _ 100 (omega (arith, id-short pid i, digit-short state s))
text-Fits (Call.insert_disk pid name snap_name bitmap_size state) (i, n, b, s) =
    short _ 100 (omega (arith, id-short pid i, long-short bitmap_size b, digit-short state s))
text-Fits (Call.rename_disk pid name snap_name) (i, n) = short _ 100 (omega (arith, id-short pid i))
text-Fits (Call.update_disk pid state) (i, s) =
    short _ 100 (omega (arith, id-short pid i, digit-short state s))
text-Fits (Call.insert_resync pid target_disk bit state status) (i, n, b, s, t) =
    short _ 100
      (omega (arith, id-short pid i, decimal-short 0 bit (omega (arith, b)), digit-short state s))
text-Fits (Call.update_bit pid bit state) (i, b, s) =
    short _ 100 (omega (arith, id-short pid i, long-short bit b, digit-short state s))
text-Fits (Call.update_resync pid state status) (i, s, t) =
    short _ 100 (omega (arith, id-short pid i, digit-short state s))
text-Fits (Call.delete_resync pid) i = short _ 100 (omega (arith, id-short pid i))

text-too_long : (c : Call) → is_too_long c ≡ true → size_of c ≤ length (text_of c)
unfolding length
text-too_long (Call.insert_disk pid name snap_name bitmap_size state) h =
    let n : 64 ≤ length name + length snap_name = ground arith in
    long _ 100 (omega (arith, n, printed-some pid, decimal-some bitmap_size, printed-some state))
text-too_long (Call.rename_disk pid name snap_name) h =
    let n : 46 ≤ length name + length snap_name = ground arith in
    long _ 100 (omega (arith, n, printed-some pid))
text-too_long (Call.insert_resync pid target_disk bit state status) h =
    let n : 61 ≤ length target_disk + length status = ground arith in
    long _ 100 (omega (arith, n, printed-some pid, decimal-some bit, printed-some state))
text-too_long _ h = absurd (cc h)

use-short : (db : List ℕ) → length db < 64 → length (use_text db) < 100
unfolding length
use-short db h = short _ 100 (omega arith)

size_of-least : (c : Call) → 100 ≤ size_of c
size_of-least (Call.insert_partner pid state ip bandwidth) = omega arith
size_of-least (Call.insert_relation role pid rid state disk bitmap_size grain_size chunk_size) =
    omega arith
size_of-least _ = omega arith

sprintf-fits : (size : ℕ) (t : List ℕ) → length t < size → sprintf size t ≡ some t
sprintf-fits size t h = let fits : ltb (length t) size ≡ true = ground arith in rw fits refl

sprintf-overflows : (size : ℕ) (t : List ℕ) → size ≤ length t → sprintf size t ≡ none
sprintf-overflows size t h =
    let no_room : ltb (length t) size ≡ false = ground arith in rw no_room refl

module _ {D : Type 0} (sql : Sql D) (db : List ℕ) where
  perform-sends :
      (c : Call) (d : D) → perform sql c db d ≡ send_statement sql (size_of c) db (text_of c) d
  unfolding perform insert_into_partner update_into_partner insert_into_relation
      update_relation_state insert_into_disk update_into_disk update_disk_state insert_into_resync
      update_into_resync update_resync_state delete_from_resync
  perform-sends (Call.insert_partner pid state ip bandwidth) d = refl
  perform-sends (Call.insert_relation role pid rid state disk bitmap_size grain_size chunk_size) d =
      refl
  perform-sends (Call.update_partner pid state) d = refl
  perform-sends (Call.update_relation pid state) d = refl
  perform-sends (Call.insert_disk pid name snap_name bitmap_size state) d = refl
  perform-sends (Call.rename_disk pid name snap_name) d = refl
  perform-sends (Call.update_disk pid state) d = refl
  perform-sends (Call.insert_resync pid target_disk bit state status) d = refl
  perform-sends (Call.update_bit pid bit state) d = refl
  perform-sends (Call.update_resync pid state status) d = refl
  perform-sends (Call.delete_resync pid) d = refl

  selected :
      (size : ℕ) (text : List ℕ) (d : D)
      → length db < 64
      → 100 ≤ size
      → send_statement sql size db text d ≡ (
          sql.mysql_query (use_text db) d >>= λ d1.
          sprintf size text >>= λ str. sql.mysql_query str d1)
  unfolding send_statement
  selected size text d h le =
      let short_use = use-short db h in
      >>=-some _ (sprintf-fits size (use_text db) (omega (arith, short_use)))

  nothing :
      {A B : Type 0} (m : Option A) (f : A → Option B) → ((a : A) → f a ≡ none) → (m >>= f) ≡ none
  nothing none f h = refl
  nothing (some a) f h = h a

  -- With the name of a database of fewer than 64 bytes, a call whose arguments fit writes no text
  -- past its array: it sends the selection of the database and then its statement, and fails only if
  -- MySQL does.
  pub perform-Fits :
      (c : Call) (d : D)
      → length db < 64
      → Fits c
      → perform sql c db d ≡ (sql.mysql_query (use_text db) d >>= sql.mysql_query (text_of c))
  perform-Fits c d h f =
      perform-sends c d
      ∙ selected (size_of c) (text_of c) d h (size_of-least c)
      ∙ ap (λ t. sql.mysql_query (use_text db) d >>= λ d1. t >>= λ str. sql.mysql_query str d1)
          (sprintf-fits (size_of c) (text_of c) (text-Fits c f))

  -- A text that is too long never gets past its array.
  pub perform-overflows :
      (c : Call) (d : D) → length db < 64 → is_too_long c ≡ true → perform sql c db d ≡ none
  perform-overflows c d h over =
      perform-sends c d
      ∙ selected (size_of c) (text_of c) d h (size_of-least c)
      ∙ ap (λ t. sql.mysql_query (use_text db) d >>= λ d1. t >>= λ str. sql.mysql_query str d1)
          (sprintf-overflows (size_of c) (text_of c) (text-too_long c over))
      ∙ nothing (sql.mysql_query (use_text db) d) _ (λ d1. refl)
