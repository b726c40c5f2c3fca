-- ===== src/User/Client/Requests/Printed.antt =====
-- The requests that the administration tool, utils/atdr_linux/atdr_adm.c, writes to the client, and what
-- `parse_daemon_request` of user/atdr_linux/atdr_daemon.c reads of them.
use greko.Base.{
  ℕ, ◌^◌, ◌<◌, ◌≡◌, refl, ap, ◌∙◌, true, false, some, List, [], ◌∷◌, ◌++◌, arith, >>=-some,
}
use greko.Base.Text.{codes, decimal}
use greko.Adm.{LongOption, length}
use greko.User.Client.Commands.{Request}
use greko.User.Client.Requests.{
  Locals, is_space, scan_id, scan_sizes, scan_partner, scan_relation, scan_word, scan_number,
  to_int, to_ulong,
}
use greko.User.Client.Requests.Scanning.{
  is_word, is_end, scan_word-first, scan_word-next, scan_number-next,
}

-- The option and the arguments for a request.
abbrev pub option_of : Request → LongOption
option_of (Request.metadata pid) = LongOption.metadata
option_of (Request.remove_partner pid) = LongOption.rmpartner
option_of (Request.remove_relation rid) = LongOption.rmrelationpeer
option_of (Request.resync pid) = LongOption.resync
option_of (Request.pause pid) = LongOption.pause
option_of (Request.resume pid) = LongOption.resume
option_of (Request.make_partner ip bandwidth disk bitmap_size grain_size chunk_size) =
    LongOption.mkpartner
option_of (Request.make_relation pid role disk bitmap_size grain_size chunk_size) =
    LongOption.mkrelationpeer
option_of Request.reload = LongOption.dbinfo

abbrev pub arguments_of : Request → List (List ℕ)
arguments_of (Request.metadata pid) = decimal pid ∷ []
arguments_of (Request.remove_partner pid) = decimal pid ∷ []
arguments_of (Request.remove_relation rid) = decimal rid ∷ []
arguments_of (Request.resync pid) = decimal pid ∷ []
arguments_of (Request.pause pid) = decimal pid ∷ []
arguments_of (Request.resume pid) = decimal pid ∷ []
arguments_of (Request.make_partner ip bandwidth disk bitmap_size grain_size chunk_size) =
    ip
    ∷ decimal bandwidth
    ∷ disk
    ∷ decimal bitmap_size
    ∷ decimal grain_size
    ∷ decimal chunk_size
    ∷ []
arguments_of (Request.make_relation pid role disk bitmap_size grain_size chunk_size) =
    decimal pid
    ∷ decimal role
    ∷ disk
    ∷ decimal bitmap_size
    ∷ decimal grain_size
    ∷ decimal chunk_size
    ∷ []
arguments_of Request.reload = []

-- What the tool is given: for the option `z` the name of a daemon, which it does not print.
abbrev pub given_of : Request → List (List ℕ)
given_of Request.reload = codes "server" ∷ []
given_of r = arguments_of r

-- `spaced` in front of a text.
unfoldable pub spaced_to : List (List ℕ) → List ℕ → List ℕ
spaced_to [] t = t
spaced_to (a ∷ rest) t = 32 ∷ (a ++ spaced_to rest t)

-- The word that the line of a request starts with.
abbrev pub name_of : Request → List ℕ
name_of (Request.metadata pid) = codes "metadata"
name_of (Request.remove_partner pid) = codes "killpartner"
name_of (Request.remove_relation rid) = codes "ormrelation"
name_of (Request.resync pid) = codes "resync"
name_of (Request.pause pid) = codes "npause"
name_of (Request.resume pid) = codes "lresume"
name_of (Request.make_partner ip bandwidth disk bitmap_size grain_size chunk_size) = codes "partner"
name_of (Request.make_relation pid role disk bitmap_size grain_size chunk_size) = codes "y"
name_of Request.reload = codes "z"

-- What ends the line of a request.
abbrev pub last_of : Request → List ℕ
last_of (Request.make_relation pid role disk bitmap_size grain_size chunk_size) = 32 ∷ []
last_of _ = []

-- The line of a request.
abbrev pub line_of : Request → List ℕ
line_of r = name_of r ++ spaced_to (arguments_of r) (last_of r)

-- Ids are those of an `int` that is not negative, sizes and bandwidth are those of an `unsigned long`,
-- and an address and a disk are words that fit into arrays of 64 bytes.
abbrev pub IsPrintable : Request → Type 0
IsPrintable (Request.metadata pid) = pid < 2 ^ 31
IsPrintable (Request.remove_partner pid) = pid < 2 ^ 31
IsPrintable (Request.remove_relation rid) = rid < 2 ^ 31
IsPrintable (Request.resync pid) = pid < 2 ^ 31
IsPrintable (Request.pause pid) = pid < 2 ^ 31
IsPrintable (Request.resume pid) = pid < 2 ^ 31
IsPrintable (Request.make_partner ip bandwidth disk bitmap_size grain_size chunk_size) =
    ((is_word ip ≡ true) × (length ip < 64))
    × ((is_word disk ≡ true) × (length disk < 64))
    × (bandwidth < 2 ^ 64)
    × (bitmap_size < 2 ^ 64)
    × (grain_size < 2 ^ 64)
    × (chunk_size < 2 ^ 64)
IsPrintable (Request.make_relation pid role disk bitmap_size grain_size chunk_size) =
    (pid < 2 ^ 31)
    × (role < 2 ^ 31)
    × ((is_word disk ≡ true) × (length disk < 64))
    × (bitmap_size < 2 ^ 64)
    × (grain_size < 2 ^ 64)
    × (chunk_size < 2 ^ 64)
IsPrintable Request.reload = Unit

int_of : (n : ℕ) → n < 2 ^ 31 → to_int false n ≡ n
int_of n lt = ground arith

ulong_of : (n : ℕ) → n < 2 ^ 64 → to_ulong false n ≡ n
ulong_of n lt = ground arith

scan_int :
    (old n : ℕ) (rest : List ℕ)
    → n < 2 ^ 31
    → is_end rest ≡ true
    → scan_number to_int old (some (32 ∷ (decimal n ++ rest))) ≡ (n, some rest)
scan_int old n rest lt e =
    scan_number-next to_int old n rest (omega arith) e ∙ ap (λ v. (v, some rest)) (int_of n lt)

scan_ulong :
    (old n : ℕ) (rest : List ℕ)
    → n < 2 ^ 64
    → is_end rest ≡ true
    → scan_number to_ulong old (some (32 ∷ (decimal n ++ rest))) ≡ (n, some rest)
scan_ulong old n rest lt e =
    scan_number-next to_ulong old n rest (omega arith) e ∙ ap (λ v. (v, some rest)) (ulong_of n lt)

name-word : (r : Request) → is_word (name_of r) ≡ true
unfolding is_space
name-word (Request.metadata pid) = refl
name-word (Request.remove_partner pid) = refl
name-word (Request.remove_relation rid) = refl
name-word (Request.resync pid) = refl
name-word (Request.pause pid) = refl
name-word (Request.resume pid) = refl
name-word (Request.make_partner ip bandwidth disk bitmap_size grain_size chunk_size) = refl
name-word (Request.make_relation pid role disk bitmap_size grain_size chunk_size) = refl
name-word Request.reload = refl

name-small : (r : Request) → length (name_of r) < 256
unfolding length
name-small (Request.metadata pid) = omega arith
name-small (Request.remove_partner pid) = omega arith
name-small (Request.remove_relation rid) = omega arith
name-small (Request.resync pid) = omega arith
name-small (Request.pause pid) = omega arith
name-small (Request.resume pid) = omega arith
name-small (Request.make_partner ip bandwidth disk bitmap_size grain_size chunk_size) = omega arith
name-small (Request.make_relation pid role disk bitmap_size grain_size chunk_size) = omega arith
name-small Request.reload = omega arith

spaced_to-is_end :
    (args : List (List ℕ)) (t : List ℕ) → is_end t ≡ true → is_end (spaced_to args t) ≡ true
unfolding spaced_to
spaced_to-is_end [] t e = e
spaced_to-is_end (a ∷ rest) t e = refl

last_of-is_end : (r : Request) → is_end (last_of r) ≡ true
last_of-is_end (Request.metadata pid) = refl
last_of-is_end (Request.remove_partner pid) = refl
last_of-is_end (Request.remove_relation rid) = refl
last_of-is_end (Request.resync pid) = refl
last_of-is_end (Request.pause pid) = refl
last_of-is_end (Request.resume pid) = refl
last_of-is_end (Request.make_partner ip bandwidth disk bitmap_size grain_size chunk_size) = refl
last_of-is_end (Request.make_relation pid role disk bitmap_size grain_size chunk_size) = refl
last_of-is_end Request.reload = refl

-- Every scan reads the name first.
pub scan_name :
    (r : Request)
    → scan_word 256 [] (some (line_of r))
      ≡ some (name_of r, some (spaced_to (arguments_of r) (last_of r)))
scan_name r =
    scan_word-first 256 [] (name_of r) (spaced_to (arguments_of r) (last_of r)) (name-word r)
      (name-small r) (spaced_to-is_end (arguments_of r) (last_of r) (last_of-is_end r))

pub scan_id-printed :
    (old n : ℕ) (line name : List ℕ)
    → scan_word 256 [] (some line) ≡ some (name, some (spaced_to (decimal n ∷ []) []))
    → n < 2 ^ 31
    → scan_id old line ≡ some n
unfolding scan_id spaced_to
scan_id-printed old n line name e lt = >>=-some _ e ∙ ap (λ r. some r.0) (scan_int old n [] lt refl)

scan_sizes-printed :
    (l : Locals) (bitmap_size grain_size chunk_size : ℕ) (rest : List ℕ)
    → bitmap_size < 2 ^ 64
    → grain_size < 2 ^ 64
    → chunk_size < 2 ^ 64
    → is_end rest ≡ true
    → scan_sizes l
        (some (spaced_to (decimal bitmap_size ∷ decimal grain_size ∷ decimal chunk_size ∷ []) rest))
      ≡ (bitmap_size, grain_size, chunk_size)
unfolding scan_sizes spaced_to
scan_sizes-printed l bitmap_size grain_size chunk_size rest b g c e =
    let third = 32 ∷ (decimal chunk_size ++ rest) in
    let second = 32 ∷ (decimal grain_size ++ third) in
    rw
      (
        scan_ulong l.bitmap_size bitmap_size second b refl,
        scan_ulong l.grain_size grain_size third g refl,
        scan_ulong l.chunk_size chunk_size rest c e,
      )
      refl

pub scan_partner-printed :
    (l : Locals) (ip disk : List ℕ) (bandwidth bitmap_size grain_size chunk_size : ℕ)
    → IsPrintable (Request.make_partner ip bandwidth disk bitmap_size grain_size chunk_size)
    → scan_partner l
        (line_of (Request.make_partner ip bandwidth disk bitmap_size grain_size chunk_size))
      ≡ some (Request.make_partner ip bandwidth disk bitmap_size grain_size chunk_size)
unfolding scan_partner spaced_to
scan_partner-printed l ip disk bandwidth bitmap_size grain_size chunk_size
      ((ip_word, ip_small), (disk_word, disk_small), lt, b, g, c) =
    let r = Request.make_partner ip bandwidth disk bitmap_size grain_size chunk_size in
    let sizes = spaced_to (decimal bitmap_size ∷ decimal grain_size ∷ decimal chunk_size ∷ []) [] in
    let third = 32 ∷ (disk ++ sizes) in
    let second = 32 ∷ (decimal bandwidth ++ third) in
    >>=-some _ (scan_name r)
    ∙ >>=-some _ (scan_word-next 64 l.partner_ip ip second ip_word ip_small refl)
    ∙ rw (scan_ulong l.bandwidth bandwidth third lt refl) (
        >>=-some _ (scan_word-next 64 l.target_disk disk sizes disk_word disk_small refl)
        ∙ ap (λ z. some (Request.make_partner ip bandwidth disk z.0 z.1 z.2))
            (scan_sizes-printed l bitmap_size grain_size chunk_size [] b g c refl))

pub scan_relation-printed :
    (l : Locals) (pid role : ℕ) (disk : List ℕ) (bitmap_size grain_size chunk_size : ℕ)
    → IsPrintable (Request.make_relation pid role disk bitmap_size grain_size chunk_size)
    → scan_relation l
        (line_of (Request.make_relation pid role disk bitmap_size grain_size chunk_size))
      ≡ some (Request.make_relation pid role disk bitmap_size grain_size chunk_size)
unfolding scan_relation spaced_to
scan_relation-printed l pid role disk bitmap_size grain_size chunk_size
      (id, as_role, (disk_word, disk_small), b, g, c) =
    let r = Request.make_relation pid role disk bitmap_size grain_size chunk_size in
    let sizes =
      spaced_to (decimal bitmap_size ∷ decimal grain_size ∷ decimal chunk_size ∷ []) (32 ∷ []) in
    let third = 32 ∷ (disk ++ sizes) in
    let second = 32 ∷ (decimal role ++ third) in
    >>=-some _ (scan_name r)
    ∙ rw (scan_int l.partnerid pid second id refl, scan_int l.role role third as_role refl)
        (>>=-some _ (scan_word-next 64 l.target_disk disk sizes disk_word disk_small refl)
          ∙ ap (λ z. some (Request.make_relation pid role disk z.0 z.1 z.2))
              (scan_sizes-printed l bitmap_size grain_size chunk_size (32 ∷ []) b g c refl))
