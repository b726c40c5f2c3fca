-- ===== src/Adm.antt =====
-- The administration tool, utils/atdr_linux/atdr_adm.c: an option and its arguments become a line of text
-- in the FIFO of the server daemon or of the client daemon.
use greko.Base.{ℕ, suc, ◌||◌, Option, none, some, List, [], ◌∷◌, ◌++◌, ltb, ◌==◌, if◌then◌else◌}
use greko.Base.Text.{codes}

-- The tool writes to a FIFO, or prints its usage or its version, or does not know the option.
pub data Outcome : Type 0 where
  to_server to_client : List ℕ → Outcome
  printed unknown_option : Outcome

-- `long_options`, by the character that getopt_long gives for each; `bad_option` is '?', and
-- `no_option` is what else it gives.
pub data LongOption : Type 0 where
  serverlog clientlog create disk grain halt metadata mkpartner rmpartner : LongOption
  listps listpc listrs listrc mkrelation mkrelationpeer rmrelationpeer : LongOption
  resync pause resume snap help version wait dbinfo bad_option no_option : LongOption

-- The arguments that "%s" prints, a blank in front of each.
unfoldable pub spaced : List (List ℕ) → List ℕ
spaced [] = []
spaced (a ∷ rest) = 32 ∷ (a ++ spaced rest)

unfoldable pub length {ℓ} : {A : Type ℓ} → List A → ℕ
length [] = 0
length (x ∷ xs) = suc (length xs)

abbrev pub count : List (List ℕ) → ℕ
count [] = 0
count (a ∷ rest) = suc (count rest)

-- `sprintf` into `buf` of 200 bytes, the last of them for the 0; none is a line that overflows it.
abbrev pub buffered : List ℕ → Option (List ℕ)
buffered t = if ltb (length t) 200 then some t else none

-- A branch of `main` with `n` arguments: another number of them prints the usage.
abbrev pub branch : (List ℕ → Outcome) → ℕ → List (List ℕ) → List ℕ → Option Outcome
branch fifo n args line =
    if count args == n
    then elim (buffered line) [ none ↦ none | some t ↦ some (fifo t) ]
    else some Outcome.printed

-- `main` for an option, with `argv[2]` and what follows it. `argc` is two more
-- than the number of these.
unfoldable pub main : LongOption → List (List ℕ) → Option Outcome
main LongOption.serverlog args = branch Outcome.to_server 2 args (codes "aserverlog" ++ spaced args)
main LongOption.clientlog args = branch Outcome.to_client 2 args (codes "bclientlog" ++ spaced args)
main LongOption.create args = branch Outcome.to_server 3 args (codes "create" ++ spaced args)
main LongOption.disk args = branch Outcome.to_client 1 args (codes "disk" ++ spaced args)
main LongOption.listps args = some (Outcome.to_server (codes "e"))
main LongOption.listpc args = some (Outcome.to_client (codes "f"))
main LongOption.grain args = branch Outcome.to_server 2 args (codes "grainset" ++ spaced args)
main LongOption.listrs args = some (Outcome.to_server (codes "i"))
main LongOption.listrc args = some (Outcome.to_client (codes "j"))
main LongOption.mkpartner args = branch Outcome.to_client 6 args (codes "partner" ++ spaced args)
main LongOption.rmpartner args =
    branch Outcome.to_client 1 args (codes "killpartner" ++ spaced args)
main LongOption.rmrelationpeer args =
    branch Outcome.to_client 1 args (codes "ormrelation" ++ spaced args)
main LongOption.halt args = some (Outcome.to_server (codes "h"))
main LongOption.metadata args = branch Outcome.to_client 1 args (codes "metadata" ++ spaced args)
main LongOption.resync args = branch Outcome.to_client 1 args (codes "resync" ++ spaced args)
main LongOption.pause args = branch Outcome.to_client 1 args (codes "npause" ++ spaced args)
main LongOption.resume args = branch Outcome.to_client 1 args (codes "lresume" ++ spaced args)
main LongOption.snap args = branch Outcome.to_server 2 args (codes "snap" ++ spaced args)
main LongOption.mkrelation args =
    branch Outcome.to_server 6 args (codes "x" ++ (spaced args ++ (32 ∷ [])))
main LongOption.mkrelationpeer args =
    branch Outcome.to_client 6 args (codes "y" ++ (spaced args ++ (32 ∷ [])))
main LongOption.help args = some Outcome.printed
main LongOption.version args = some Outcome.printed
main LongOption.wait args = some (Outcome.to_server (codes "w"))
main LongOption.dbinfo ((c ∷ cs) ∷ []) =
    some
      (if c == 99 || c == 67 then Outcome.to_server (codes "z") else Outcome.to_client (codes "z"))
main LongOption.dbinfo ([] ∷ []) = some (Outcome.to_client (codes "z"))
main LongOption.dbinfo _ = some Outcome.printed
main LongOption.bad_option args = some Outcome.printed
main LongOption.no_option args = some Outcome.unknown_option
