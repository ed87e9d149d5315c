-- ===== src/Client/Connect/Channel.antt =====
-- `SftpClient::new` and the trait `IntoSftpStream` of src/client/mod.rs: from an SSH connection, one of
-- its channels or the stream of a channel to a client. What the library russh does is a parameter, on
-- the state `W` of the connection: `H` is its `Handle`, `C` its `Channel<Msg>`, `S` its `ChannelStream<Msg>`.
use mathlib.Core.Logic.Iff
use rusftp.Prelude.{
  ℕ, ◌^◌, ◌<◌, Bool, false, String, [], ◌∷◌, length, Result, ok, err, ◌≡◌, ◌↔◌, refl,
}
use rusftp.Wire.Bytes.{put_be}
use rusftp.Message.Types.{Bytes, Message, Version}
use rusftp.Message.Format
use rusftp.Message.Valid.{IsValid}
use rusftp.Client.Error.{Error, SshError, of_ssh_error}
use rusftp.Client.Connect.{Source, Session, start_session, with_stream}
use rusftp.Client.Connect.Handshake.{with_stream_iff}
use rusftp.Client.Receiver.{Stream}

pub record Ssh (H C S W : Type 0) : Type 0 where
  pub channel_open_session : H → W → Result C SshError × W
  pub request_subsystem : C → Bool → String → W → Result (Unit {0}) SshError × W
  pub into_stream : C → S

-- `IntoSftpStream` for the type `T`
pub record IntoSftpStream (T S W : Type 0) : Type 0 where
  pub into_sftp_stream : T → W → Result S Error × W

-- `?` on a result, with the conversion of its error.
unfoldable pub question :
    {A B E W : Type 0}
    → (E → Error)
    → Result A E × W
    → (A → W → Result B Error × W)
    → Result B Error × W
question from (err e, w) next = (err (from e), w)
question from (ok a, w) next = next a w

-- The three implementations.
unfoldable pub of_stream : {S W : Type 0} → IntoSftpStream S S W
of_stream = record { into_sftp_stream = λ s w. (ok s, w) }

unfoldable pub of_channel : {H C S W : Type 0} → Ssh H C S W → IntoSftpStream C S W
unfolding question
of_channel ssh = record {
  into_sftp_stream = λ c w.
      question of_ssh_error (ssh.request_subsystem c false "sftp" w)
        (λ u w'. (ok (ssh.into_stream c), w'));
}

-- A `Handle`, moved or borrowed.
unfoldable pub of_handle : {H C S W : Type 0} → Ssh H C S W → IntoSftpStream H S W
unfolding question of_channel
of_handle ssh = record {
  into_sftp_stream =
      λ h w. question of_ssh_error (ssh.channel_open_session h w) (of_channel ssh).into_sftp_stream;
}

-- `SftpClient::new`, where `stream` and `source` say how the stream of a channel writes and reads.
unfoldable pub new :
    {T S W : Type 0}
    → IntoSftpStream T S W
    → Bytes
    → (S → Stream W)
    → (S → Source W)
    → T
    → W
    → Result (Session W) Error × W
unfolding question
new into closed_text stream source t w =
    question (λ e. e) (into.into_sftp_stream t w)
      (λ s w'. with_stream closed_text (stream s) (source s) w')

module _ {H C S W : Type 0} (ssh : Ssh H C S W) (closed_text : Bytes) (stream : S → Stream W)
    (source : S → Source W) where
  -- Once a channel is open, `new` comes to what the request for the subsystem and the handshake come to.
  new-opened :
      (h : H) (c : C) (r : Result (Unit {0}) SshError) (w w₁ w₂ : W)
      → ssh.channel_open_session h w ≡ (ok c, w₁)
      → ssh.request_subsystem c false "sftp" w₁ ≡ (r, w₂)
      → new (of_handle ssh) closed_text stream source h w ≡ elim r [
        | ok u ↦
            with_stream closed_text (stream (ssh.into_stream c)) (source (ssh.into_stream c)) w₂
        | err e ↦ (err (of_ssh_error e), w₂)
      ]
  unfolding new of_handle of_channel question
  new-opened h c (ok u) w w₁ w₂ opens asks = rw (opens, asks) refl
  new-opened h c (err e) w w₁ w₂ opens asks = rw (opens, asks) refl

  -- A channel of the connection is opened, and the subsystem "sftp" is asked for on it, without a reply
  -- to that being wanted. The stream of this channel takes the frame of INIT with version 3, and what it
  -- gives then is the frame of a message whose parts fit their types, with an id of 32 bits. From this
  -- connection comes a client that runs, with a receiver at its start that owns the stream, exactly if
  -- the asking was no error and that message is a VERSION with version 3.
  pub new-handle_iff :
      (h : H) (c : C) (r : Result (Unit {0}) SshError) (id : ℕ) (m : Message) (w w₁ w₂ t u v : W)
      → ssh.channel_open_session h w ≡ (ok c, w₁)
      → ssh.request_subsystem c false "sftp" w₁ ≡ (r, w₂)
      → id < 2 ^ 32
      → IsValid m
      → length (Format.packet id m) < 2 ^ 32
      → (stream (ssh.into_stream c)).write_all (0 ∷ 0 ∷ 0 ∷ 5 ∷ 1 ∷ 0 ∷ 0 ∷ 0 ∷ 3 ∷ []) w₂
        ≡ (ok tt, t)
      → (source (ssh.into_stream c)).read_exact 4 t
        ≡ (ok (put_be 4 (length (Format.packet id m))), u)
      → (source (ssh.into_stream c)).read_exact (length (Format.packet id m)) u
        ≡ (ok (Format.packet id m), v)
      → (new (of_handle ssh) closed_text stream source h w ≡ (ok (start_session closed_text v), v))
        ↔ ((r ≡ ok tt)
            × (version : Version) × (m ≡ Message.version version)
            × (version.version ≡ 3))
  new-handle_iff h c (err e) id m w w₁ w₂ t u v opens asks fits valid short sends first second =
      rw (new-opened h c (err e) w w₁ w₂ opens asks) (λ e. cc e, λ (e, version, same, three). cc e)
  new-handle_iff h c (ok x) id m w w₁ w₂ t u v opens asks fits valid short sends first second =
      rw (new-opened h c (ok x) w w₁ w₂ opens asks) (
        Iff.trans
          (with_stream_iff closed_text (stream (ssh.into_stream c)) (source (ssh.into_stream c)) id
            m w₂ t u v fits valid short sends first second)
          (
            λ (version, e, three). (refl, version, e, three),
            λ (same, version, e, three). (version, e, three),
          ))
