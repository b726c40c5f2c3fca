-- ===== src/User/Client/Requests/Served.antt =====
-- The way of a request from the administration tool to the client: `main` of utils/atdr_linux/atdr_adm.c
-- and `parse_daemon_request` of user/atdr_linux/atdr_daemon.c.
use greko.Base.{ℕ, ◌<◌, ◌≡◌, refl, ap, ◌∙◌, true, some, List, [], ◌∷◌, ◌++◌, ltb, ◌==◌, arith}
use mathlib.Core.List.{append_assoc}
use greko.Adm.{Outcome, spaced, length, count, branch, main}
use greko.User.Client.Commands.{Request}
use greko.User.Client.Requests.{Locals, parse_daemon_request, as_request, known}
use greko.User.Client.Requests.Printed.{
  option_of, arguments_of, given_of, name_of, last_of, line_of, IsPrintable, spaced_to, scan_name,
  scan_id-printed, scan_partner-printed, scan_relation-printed,
}

spaced-append : (args : List (List ℕ)) (t : List ℕ) → spaced args ++ t ≡ spaced_to args t
unfolding spaced spaced_to
spaced-append [] t = refl
spaced-append (a ∷ rest) t =
    ap (λ x. 32 ∷ x) (append_assoc a (spaced rest) t ∙ ap (λ x. a ++ x) (spaced-append rest t))

spaced-last : (args : List (List ℕ)) → spaced args ≡ spaced_to args []
unfolding spaced spaced_to
spaced-last [] = refl
spaced-last (a ∷ rest) = ap (λ x. 32 ∷ (a ++ x)) (spaced-last rest)

branch-writes :
    (n : ℕ) (args : List (List ℕ)) (line t : List ℕ)
    → (count args == n) ≡ true
    → line ≡ t
    → length t < 200
    → branch Outcome.to_client n args line ≡ some (Outcome.to_client t)
branch-writes n args line t enough e lt =
    let small : ltb (length t) 200 ≡ true = ground arith in rw (enough, e, small) refl

-- The tool writes the line of a request that fits into its buffer.
main-writes :
    (r : Request)
    → length (line_of r) < 200
    → main (option_of r) (given_of r) ≡ some (Outcome.to_client (line_of r))
unfolding main spaced_to
main-writes (Request.metadata pid) lt =
    let r = Request.metadata pid in
    branch-writes 1 (arguments_of r) _ (line_of r) refl
      (ap (λ x. name_of r ++ x) (spaced-last (arguments_of r))) lt
main-writes (Request.remove_partner pid) lt =
    let r = Request.remove_partner pid in
    branch-writes 1 (arguments_of r) _ (line_of r) refl
      (ap (λ x. name_of r ++ x) (spaced-last (arguments_of r))) lt
main-writes (Request.remove_relation rid) lt =
    let r = Request.remove_relation rid in
    branch-writes 1 (arguments_of r) _ (line_of r) refl
      (ap (λ x. name_of r ++ x) (spaced-last (arguments_of r))) lt
main-writes (Request.resync pid) lt =
    let r = Request.resync pid in
    branch-writes 1 (arguments_of r) _ (line_of r) refl
      (ap (λ x. name_of r ++ x) (spaced-last (arguments_of r))) lt
main-writes (Request.pause pid) lt =
    let r = Request.pause pid in
    branch-writes 1 (arguments_of r) _ (line_of r) refl
      (ap (λ x. name_of r ++ x) (spaced-last (arguments_of r))) lt
main-writes (Request.resume pid) lt =
    let r = Request.resume pid in
    branch-writes 1 (arguments_of r) _ (line_of r) refl
      (ap (λ x. name_of r ++ x) (spaced-last (arguments_of r))) lt
main-writes (Request.make_partner ip bandwidth disk bitmap_size grain_size chunk_size) lt =
    let r = Request.make_partner ip bandwidth disk bitmap_size grain_size chunk_size in
    branch-writes 6 (arguments_of r) _ (line_of r) refl
      (ap (λ x. name_of r ++ x) (spaced-last (arguments_of r))) lt
main-writes (Request.make_relation pid role disk bitmap_size grain_size chunk_size) lt =
    let r = Request.make_relation pid role disk bitmap_size grain_size chunk_size in
    branch-writes 6 (arguments_of r) _ (line_of r) refl
      (ap (λ x. name_of r ++ x) (spaced-append (arguments_of r) (last_of r))) lt
main-writes Request.reload lt = refl

parse-line :
    (l : Locals) (r : Request) → IsPrintable r → parse_daemon_request l (line_of r) ≡ some (some r)
unfolding parse_daemon_request
parse-line l (Request.metadata pid) h =
    ap (as_request Request.metadata)
      (scan_id-printed l.pid pid _ _ (scan_name (Request.metadata pid)) h)
parse-line l (Request.remove_partner pid) h =
    ap (as_request Request.remove_partner)
      (scan_id-printed l.pid pid _ _ (scan_name (Request.remove_partner pid)) h)
parse-line l (Request.remove_relation rid) h =
    ap (as_request Request.remove_relation)
      (scan_id-printed l.rid rid _ _ (scan_name (Request.remove_relation rid)) h)
parse-line l (Request.resync pid) h =
    ap (as_request Request.resync)
      (scan_id-printed l.pid pid _ _ (scan_name (Request.resync pid)) h)
parse-line l (Request.pause pid) h =
    ap (as_request Request.pause) (scan_id-printed l.pid pid _ _ (scan_name (Request.pause pid)) h)
parse-line l (Request.resume pid) h =
    ap (as_request Request.resume)
      (scan_id-printed l.pid pid _ _ (scan_name (Request.resume pid)) h)
parse-line l (Request.make_partner ip bandwidth disk bitmap_size grain_size chunk_size) h =
    ap known (scan_partner-printed l ip disk bandwidth bitmap_size grain_size chunk_size h)
parse-line l (Request.make_relation pid role disk bitmap_size grain_size chunk_size) h =
    ap known (scan_relation-printed l pid role disk bitmap_size grain_size chunk_size h)
parse-line l Request.reload h = refl

-- What the tool writes for a request, whose numbers are within the bounds of the C types and whose line
-- fits into the tool's buffer, goes to the client, and the client reads the request back, whatever its
-- local variables held.
pub parse-main :
    (l : Locals) (r : Request)
    → IsPrintable r
    → length (line_of r) < 200
    → (main (option_of r) (given_of r) ≡ some (Outcome.to_client (line_of r)))
      × (parse_daemon_request l (line_of r) ≡ some (some r))
parse-main l r h lt = (main-writes r lt, parse-line l r h)
