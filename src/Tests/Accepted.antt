-- ===== src/Tests/Accepted.antt =====
-- A server with two partners: a connection that fails and is regained, and a peer that closes its end.
use greko.Base.{
  ℕ, zero, suc, ◌<◌, ◌≡◌, refl, true, false, Option, none, some, List, [], ◌∷◌, map, ◌==◌, arith,
}
use greko.Base.Text.{codes, decimal, digits_of, value, is_digit, same_text}
use greko.Adm.{length}
use greko.User.Types.{Header}
use greko.User.Posix.{Posix}
use greko.User.Client.Requests.{is_space, scan_word, skip_space, take_while, signed}
use greko.User.Server.{Server, Partner, terminate}
use greko.User.Server.Receiving.{
  Received, Leaving, failed, closed, got, recv_failed, pause_receiving, receive,
}
use greko.User.Server.Receiving.Ending.{receive-repeats}
use greko.User.Server.Accept.{Accepting, accept_client, choose_pid, connected, create_conn}
use greko.User.Server.Accept.Regained.{PassesOver, Regained, accept_client-regains}
use greko.User.Database.{pieces}
use greko.User.Database.Tables.{partner_text, changed, effect, effects}
use greko.User.Database.Rows.{fill, retrieve, retrieve_from_partner, read_partner}
use greko.Tests.Daemons.{calls, a_data, an_end, a_server, a_world}
use greko.Tests.Stored.{Database, a_mysql, left}

-- A peer that sends so many requests to end the replication, and breaks off.
abbrev peer : ℕ → Header → ℕ → Received × ℕ
peer sock h zero = (failed, zero)
peer sock h (suc n) = (got an_end, n)

abbrev quiet : Posix ℕ
quiet = record {
  lseek = λ fd o w. (true, w);
  read = λ fd b n w. (true, b, w);
  write = λ fd b n w. (true, w);
  send = λ fd p w. (true, w);
  recv = λ fd b n w. (true, b, w);
  timed_out = λ w. false;
  hang_up = λ fd w. w;
  pauses = λ w. false;
}

abbrev ends : Header → Server → ℕ → Option (Header × Server × ℕ)
ends h s w = some (h, (terminate h s).1, w)

-- A peer that has closed its end: the last header is handled for ever.
abbrev closed_peer : ℕ → Header → ℕ → Received × ℕ
closed_peer sock h w = (closed, w)

forever :
    (n : ℕ)
    → (s2 : Server) × (w2 : ℕ) × (receive quiet closed_peer ends 5 n an_end a_server 0
        ≡ Leaving.running an_end s2 w2)
forever n =
    receive-repeats quiet closed_peer ends 5 an_end
      (record { recv_closed = λ w. (w, refl); handled = λ s w. (_, _, refl) }) n a_server 0

-- The client of the partner 1 had asked for data when its connection failed, and connects again.
abbrev asked : Header
asked = record a_data { partner_id = 1 }

abbrev waiting_server : Accepting
waiting_server = record {
  server = (recv_failed calls asked a_server a_world).0;
  client_connected = false;
  slot_pid = λ i. 0;
  threads = [];
}

abbrev partners_read : Option (ℕ × (ℕ → Partner) × Database) → ℕ → Partner
partners_read none = a_server.partner
partners_read (some (n, partner, d)) = partner

abbrev read_again : ℕ → Partner
read_again = partners_read (retrieve_from_partner (a_mysql []) a_server.partner left)

reads_again :
    retrieve_from_partner (a_mysql []) waiting_server.server.partner left
    ≡ some (2, read_again, record left { result = map partner_text left.tables.partner })
unfolding recv_failed pause_receiving retrieve_from_partner retrieve fill read_partner scan_word
    skip_space take_while signed is_space same_text pieces decimal digits_of value is_digit effects
    effect changed length
reads_again = refl

first_passed : (k : ℕ) → k < 1 → PassesOver k 2 (connected 9 read_again waiting_server)
unfolding recv_failed pause_receiving retrieve_from_partner retrieve fill read_partner scan_word
    skip_space take_while signed is_space same_text pieces decimal digits_of value is_digit effects
    effect changed length
first_passed zero lt = (refl, refl, refl, refl)
first_passed (suc k) lt = absurd (omega (arith, lt))

accept_client-regains_example :
    (a1 : Accepting) × (accept_client (a_mysql []) 9 waiting_server left
      ≡ some (a1, record left { result = map partner_text left.tables.partner }))
    × Regained 1 9 a_server a1
accept_client-regains_example =
    accept_client-regains (a_mysql []) calls asked a_world 9 2 read_again waiting_server a_server
      left (record left { result = map partner_text left.tables.partner }) refl (omega arith) refl
      reads_again (omega arith) (omega arith) first_passed

-- A second client connects for the first time: the thread that is created for its connection is given
-- the partner id 0, of the first client.
abbrev one_partner : Database
one_partner = record {
  tables = record {
    partner = record { pid = 0; state = 1; ip = codes "10.0.0.1"; bandwidth = 100 } ∷ [];
    resync = [];
  };
  result = [];
}

abbrev one_client : Accepting
one_client = record {
  server = record a_server { partner_created = λ i. i == 0; total_conn = 0 };
  client_connected = true;
  slot_pid = λ i. 0;
  threads = (0, 5) ∷ [];
}

abbrev threads_of : Option (Accepting × Database) → List (ℕ × ℕ)
threads_of none = []
threads_of (some (a, d)) = a.threads

second_client :
    threads_of (accept_client (a_mysql []) 9 one_client one_partner) ≡ (0, 9) ∷ (0, 5) ∷ []
unfolding accept_client choose_pid create_conn retrieve_from_partner retrieve fill read_partner
    scan_word skip_space take_while signed is_space same_text pieces decimal digits_of value
    is_digit effects effect changed length
second_client = refl
