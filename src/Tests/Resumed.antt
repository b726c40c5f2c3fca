-- ===== src/Tests/Resumed.antt =====
-- A resynchronisation that stops at the first answer, which comes too late, and is taken up again.
use Prim.{tt}
use greko.Base.{ℕ, ◌≡◌, refl, ap, true, false, inr}
use greko.User.Types.{RepMode, PartnerState, RepState}
use greko.User.Posix.{Posix, Packet, header, bytes}
use greko.User.Resync.{Client, Ending, restart_resync}
use greko.User.Resync.Reliable.{splice}
use greko.User.Resync.Flaky.{Flaky}
use greko.Tests.Daemons.{World, source, calls, a_client, a_world}

abbrev late_calls : Posix World
late_calls = record calls { timed_out = λ w. true }

abbrev target_of : World → (ℕ → ℕ)
target_of w = w.target

sending_keeps : (p : Packet) (w : World) → target_of (late_calls.send 5 p w).1 ≡ target_of w
sending_keeps (header h) w = refl
sending_keeps (bytes n b) w = refl

too_late : true ≡ false → ⊥
too_late never = cc never

abbrev late_calls-Flaky : Flaky late_calls 5 6 source 8 8 524288 target_of
late_calls-Flaky = record {
  Up = λ w. Unit;
  Sent = λ o w. w.answer ≡ o;
  Seeked = λ o w. w.at ≡ o;
  send_keeps = sending_keeps;
  hang_up_keeps = λ w. refl;
  recv_keeps = λ b w. refl;
  lseek_keeps = λ o w. refl;
  send_request = λ h w up e ok. refl;
  recv_answer = λ o b w sent ok never. absurd (too_late never);
  seek_target = λ o w up ok. refl;
  write_target = λ o b w seeked fits. (
    λ ok. (ap (λ o. splice o 4096 b w.target) seeked, tt),
    λ x. inr (ap (λ o. splice o 4096 b w.target x) seeked),
  );
}

abbrev stopped : Ending × Client × World
stopped = restart_resync late_calls 0 0 RepMode.no_resync source a_client a_world

-- The client as the command `l` leaves it.
abbrev resumed : Client
resumed = record a_client {
  partner = PartnerState.resume;
  rep_state = RepState.resume;
  last_resynced_bit = 2;
}
