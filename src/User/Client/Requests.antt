-- ===== src/User/Client/Requests.antt =====
-- The parsing of the client's requests, the `sscanf` calls of `parse_daemon_request` of
-- user/atdr_linux/atdr_daemon.c. A text is the bytes up to the 0. A conversion that fails ends the scan,
-- and what it would have stored keeps its value.
pub mod Scanning
pub mod Printed
pub mod Served
use greko.Base.{
  ℕ, ◌-◌, ◌%◌, ◌^◌, Bool, true, false, ◌&&◌, ◌||◌, not, Option, none, some, List, [], ◌∷◌, ltb, leb,
  ◌==◌, if◌then◌else◌, ◌>>=◌, ◌>>◌, require,
}
use greko.Base.Text.{is_digit, value}
use greko.Adm.{length}
use greko.User.Client.Commands.{Request}

-- `isspace`
unfoldable pub is_space : ℕ → Bool
is_space c = c == 32 || leb 9 c && leb c 13

unfoldable pub skip_space : List ℕ → List ℕ
skip_space [] = []
skip_space (c ∷ cs) = let rest = skip_space cs in if is_space c then rest else c ∷ cs

-- The longest front of a text whose bytes all pass a test, and the rest.
unfoldable pub take_while : (ℕ → Bool) → List ℕ → List ℕ × List ℕ
take_while p [] = ([], [])
take_while p (c ∷ cs) =
    let (w, rest) = take_while p cs in if p c then (c ∷ w, rest) else ([], c ∷ cs)

abbrev pub Scan : Type 0 → Type 0
Scan A = A × Option (List ℕ)

abbrev pub word_or_fail : List ℕ → List ℕ × List ℕ → Scan (List ℕ)
word_or_fail old ([], rest) = (old, none)
word_or_fail old (c ∷ w, rest) = (c ∷ w, some rest)

-- "%s" into an array of `size` bytes; none is a word that overflows it.
unfoldable pub scan_word : ℕ → List ℕ → Option (List ℕ) → Option (Scan (List ℕ))
scan_word size old none = some (old, none)
scan_word size old (some t) =
    let r = word_or_fail old (take_while (λ c. not (is_space c)) (skip_space t)) in
    do require (ltb (length r.0) size); some r

-- The digits of a number, or a failure.
abbrev pub digits_or_fail : (ℕ → ℕ) → ℕ → List ℕ × List ℕ → Scan ℕ
digits_or_fail convert old ([], rest) = (old, none)
digits_or_fail convert old (c ∷ w, rest) = (convert (value 0 (c ∷ w)), some rest)

-- A number with its sign; `convert` is given whether the sign is a minus.
unfoldable pub signed : (Bool → ℕ → ℕ) → ℕ → List ℕ → Scan ℕ
signed convert old [] = (old, none)
signed convert old (c ∷ cs) =
    if c == 45
    then digits_or_fail (convert true) old (take_while is_digit cs)
    else if c == 43
    then digits_or_fail (convert false) old (take_while is_digit cs)
    else digits_or_fail (convert false) old (take_while is_digit (c ∷ cs))

abbrev pub scan_number : (Bool → ℕ → ℕ) → ℕ → Option (List ℕ) → Scan ℕ
scan_number convert old none = (old, none)
scan_number convert old (some t) = signed convert old (skip_space t)

-- "%lu": what strtoul gives, with ULONG_MAX for a number that is too large.
abbrev pub to_ulong : Bool → ℕ → ℕ
to_ulong negative v =
    if ltb v (2 ^ 64) then (if negative then (2 ^ 64 - v) % 2 ^ 64 else v) else 2 ^ 64 - 1

-- "%d": what strtol gives, with LONG_MAX or LONG_MIN for a number that is too large, as an `int`.
abbrev pub to_int : Bool → ℕ → ℕ
to_int true v = if ltb v (2 ^ 63) then (2 ^ 64 - v) % 2 ^ 32 else 0
to_int false v = if ltb v (2 ^ 63) then v % 2 ^ 32 else 2 ^ 32 - 1

-- What the local variables of `parse_daemon_request` hold before a scan.
pub record Locals : Type 0 where
  pub pid : ℕ
  pub rid : ℕ
  pub partnerid : ℕ
  pub role : ℕ
  pub bandwidth : ℕ
  pub bitmap_size : ℕ
  pub grain_size : ℕ
  pub chunk_size : ℕ
  pub partner_ip : List ℕ
  pub target_disk : List ℕ

-- "%s %d"
pub scan_id : ℕ → List ℕ → Option ℕ
unfolding scan_word signed
scan_id old t = do (tmp, t1) ← scan_word 256 [] (some t); some (scan_number to_int old t1).0

-- "%lu %lu %lu" at the end of a scan.
pub scan_sizes : Locals → Option (List ℕ) → ℕ × ℕ × ℕ
unfolding signed
scan_sizes l t =
    let (bitmap_size, t1) = scan_number to_ulong l.bitmap_size t in
    let (grain_size, t2) = scan_number to_ulong l.grain_size t1 in
    let (chunk_size, t3) = scan_number to_ulong l.chunk_size t2 in
    (bitmap_size, grain_size, chunk_size)

-- "%s %s %lu %s %lu %lu %lu"
pub scan_partner : Locals → List ℕ → Option Request
unfolding scan_sizes
scan_partner l t = do
  (tmp, t1) ← scan_word 256 [] (some t)
  (partner_ip, t2) ← scan_word 64 l.partner_ip t1
  let (bandwidth, t3) = scan_number to_ulong l.bandwidth t2
  (target_disk, t4) ← scan_word 64 l.target_disk t3
  let (bitmap_size, grain_size, chunk_size) = scan_sizes l t4
  some (Request.make_partner partner_ip bandwidth target_disk bitmap_size grain_size chunk_size)

-- "%s %d %d %s %lu %lu %lu"
pub scan_relation : Locals → List ℕ → Option Request
unfolding scan_sizes
scan_relation l t = do
  (tmp, t1) ← scan_word 256 [] (some t)
  let (partnerid, t2) = scan_number to_int l.partnerid t1
  let (role, t3) = scan_number to_int l.role t2
  (target_disk, t4) ← scan_word 64 l.target_disk t3
  let (bitmap_size, grain_size, chunk_size) = scan_sizes l t4
  some (Request.make_relation partnerid role target_disk bitmap_size grain_size chunk_size)

abbrev pub as_request : (ℕ → Request) → Option ℕ → Option (Option Request)
as_request f o = o >>= λ n. some (some (f n))

abbrev pub known : Option Request → Option (Option Request)
known o = o >>= λ r. some (some r)

-- The switch on the first byte: none is an overflow, and some none a request that does not concern the
-- client's tables of partners, relations and disks.
pub parse_daemon_request : Locals → List ℕ → Option (Option Request)
unfolding scan_id scan_partner scan_relation
parse_daemon_request l [] = some none
parse_daemon_request l (c ∷ cs) =
    let t = c ∷ cs in
    if c == 109
    then as_request Request.metadata (scan_id l.pid t)
    else if c == 112
    then known (scan_partner l t)
    else if c == 107
    then as_request Request.remove_partner (scan_id l.pid t)
    else if c == 121
    then known (scan_relation l t)
    else if c == 111
    then as_request Request.remove_relation (scan_id l.rid t)
    else if c == 114
    then as_request Request.resync (scan_id l.pid t)
    else if c == 110
    then as_request Request.pause (scan_id l.pid t)
    else if c == 108
    then as_request Request.resume (scan_id l.pid t)
    else if c == 122
    then some (some Request.reload)
    else some none
