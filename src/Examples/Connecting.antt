-- ===== src/Examples/Connecting.antt =====
-- A connection that opens one channel and lets the subsystem be asked for on it, and whose server
-- answers with VERSION 3. The state counts the calls.
use rusftp.Prelude.{ℕ, ◌+◌, ◌≡◌, ◌↔◌, [], ◌∷◌, Result, ok, ◌==◌, if◌then◌else◌, refl, arith, concat}
use rusftp.Wire.Bytes.{put_be}
use rusftp.Message.Types.{Message, Version}
use rusftp.Message.Format
use rusftp.Client.Error.{SshError}
use rusftp.Client.Receiver.{Stream, Reading}
use rusftp.Client.Connect.{Source, start_session}
use rusftp.Client.Connect.Channel.{Ssh, of_handle, new, new-handle_iff}

abbrev connection : Ssh ℕ ℕ ℕ ℕ
connection = record {
  channel_open_session = λ h w. (ok h, w + 1);
  request_subsystem = λ c reply name w. (ok tt, w + 1);
  into_stream = λ c. c;
}

abbrev writes : ℕ → Stream ℕ
writes channel = record {
  poll_read = λ room w. (Reading.pending, w);
  write_all = λ bytes w. (ok tt, w + 1);
}

abbrev greets : ℕ → Source ℕ
greets channel = record {
  read_exact = λ n w. (ok (if w == 3 then 0 ∷ 0 ∷ 0 ∷ 5 ∷ [] else 2 ∷ 0 ∷ 0 ∷ 0 ∷ 3 ∷ []), w + 1);
}

abbrev greeting_message : Message
greeting_message = Message.version (record { version = 3; extensions = [] })

abbrev no_error : Result (Unit {0}) SshError
no_error = ok tt

new-handle_example :
    (new (of_handle connection) [] writes greets 7 0 ≡ (ok (start_session [] 5), 5)) ↔ (
      (no_error ≡ ok tt)
      × (version : Version) × (greeting_message ≡ Message.version version)
      × (version.version ≡ 3))
unfolding Format.packet Format.packet_type Format.packet_id Format.body Format.extensions put_be
    concat
new-handle_example =
    new-handle_iff connection [] writes greets 7 7 no_error 0 greeting_message 0 1 2 3 4 5 refl refl
      (omega arith) (omega arith, (omega arith, tt, tt)) (omega arith) refl refl refl
