-- ===== src/Tests/Agreement.antt =====
-- A server and a client that make a relation of 16 grains.
use greko.Base.{◌≡◌, refl, true, none, some, [], ◌∷◌, arith}
use greko.User.Server.Handlers.Lifecycle.{partnered, make_partner-partnered}
use greko.User.Server.Handlers.Agreement.{Link, linked, client-server-agree}
use greko.User.Client.{Daemon, System}
use greko.User.Client.Keys.{is_client_partner_id_valid_iff}
use greko.User.Client.Session.{Md5, make_relation_with_server}
use greko.Tests.Daemons.{World, calls, a_header, a_server, a_world}
use greko.Tests.Clients.{a_daemon, a_daemon-IsKeyed}

abbrev a_link : Link World
a_link = record { server = partnered a_header a_server; inbox = a_header; outside = a_world }

abbrev a_system : System (Link World)
a_system = record {
  posix = record {
    lseek = λ fd o w. (true, w);
    read = λ fd b n w. (true, b, w);
    write = λ fd b n w. (true, w);
    send = λ fd p w. (true, w);
    recv = λ fd b n w. (true, b, w);
    timed_out = λ w. true;
    hang_up = λ fd w. w;
    pauses = λ w. true;
  };
  recv_header = λ sock h w. (true, h, w);
  socket = λ w. (some 7, w);
  connect = λ sock ip w. (true, w);
  open_file = λ name w. (some 8, w);
  close = λ fd w. (true, w);
  malloc = λ n w. (true, w);
  store_file = λ name n b w. (true, w);
  load_file = λ name n b w. (true, b, w);
}

abbrev no_md5 : Md5 (Link World)
no_md5 name h w = (none, w)

-- The client asks for 99 grains; the partnership has 16.
client-server-agree_example :
    (t : Daemon) × (l1 : Link World) × (make_relation_with_server
        (linked calls a_system)
        no_md5
        0
        1
        (100 ∷ [])
        99
        9
        9
        (λ i. 0)
        a_daemon
        a_link
      ≡ some (t, l1))
    × ((t.relation 0).bitmap_size ≡ (l1.server.relation 0).bitmap_size)
    × ((t.relation 0).grain_size ≡ (l1.server.relation 0).grain_size)
    × ((t.relation 0).chunk_size ≡ (l1.server.relation 0).chunk_size)
    × ((t.relation 0).bitmap_size ≡ 16)
    × ((t.relation 0).grain_size ≡ 8)
    × ((t.relation 0).chunk_size ≡ 8)
client-server-agree_example =
    client-server-agree calls no_md5 a_system a_header a_server 1 (100 ∷ []) 99 9 9 (λ i. 0)
      a_daemon a_link (omega arith) (omega arith)
      (make_partner-partnered a_header a_server (omega arith) (omega arith))
      ((is_client_partner_id_valid_iff 0 a_daemon a_daemon-IsKeyed (omega arith)).1 refl) refl
      (λ name x. (refl, refl))
