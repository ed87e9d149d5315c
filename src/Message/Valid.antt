-- ===== src/Message/Valid.antt =====
-- What Rust's types say of the fields of a message, and the lengths that fit the wire format.
use rusftp.Prelude.{ℕ, ◌^◌, ◌≤◌, ◌<◌, ◌≡◌, true, [], Option, none, some, length, All}
use rusftp.Wire.Utf8.{is_utf8}
use rusftp.Wire.Encoder.{u32_max}
use rusftp.Message.Extensions.{IsSorted}
use rusftp.Message.Types.{
  Bytes, FilePath, Owner, Time, Permissions, Attrs, Extensions, NameEntry, Message,
}

-- The last field of these messages takes all that is left of a packet.
abbrev pub EndsPacket : Message → Bytes → Type 0
EndsPacket (Message.init m) rest = rest ≡ []
EndsPacket (Message.version m) rest = rest ≡ []
EndsPacket (Message.extended m) rest = rest ≡ []
EndsPacket (Message.extended_reply m) rest = rest ≡ []
EndsPacket m rest = Unit

abbrev pub IsU32 : ℕ → Type 0
IsU32 n = n < 2 ^ 32

abbrev pub IsU64 : ℕ → Type 0
IsU64 n = n < 2 ^ 64

abbrev pub Fits : Bytes → Type 0
Fits bs = length bs ≤ u32_max

abbrev pub IsText : Bytes → Type 0
IsText bs = Fits bs × (is_utf8 bs ≡ true)

abbrev pub IsPath : FilePath → Type 0
IsPath p = IsText p.text

abbrev pub IfSome : {A : Type 0} → (A → Type 0) → Option A → Type 0
IfSome P none = Unit
IfSome P (some a) = P a

abbrev pub IsOwner : Owner → Type 0
IsOwner o = IsU32 o.uid × IsU32 o.gid

abbrev pub IsTime : Time → Type 0
IsTime t = IsU32 t.atime × IsU32 t.mtime

pub record IsAttrs (a : Attrs) : Type 0 where
  pub size : IfSome IsU64 a.size
  pub owner : IfSome IsOwner a.owner
  pub perms : IfSome (λ (p : Permissions). IsU32 p.bits) a.perms
  pub time : IfSome IsTime a.time

pub record IsEntry (e : NameEntry) : Type 0 where
  pub filename : IsPath e.filename
  pub long_name : Fits e.long_name
  pub attrs : IsAttrs e.attrs

-- The count of a map fits a `u32`, and so does every length; the keys are in order.
abbrev pub IsExtensions : Extensions → Type 0
IsExtensions m =
    (length m ≤ u32_max) × All (λ (kv : Bytes × Bytes). Fits kv.0 × Fits kv.1) m × IsSorted m

abbrev pub IsValid : Message → Type 0
IsValid (Message.init m) = IsU32 m.version × IsExtensions m.extensions
IsValid (Message.version m) = IsU32 m.version × IsExtensions m.extensions
IsValid (Message.open_ m) = IsPath m.filename × IsU32 m.pflags.bits × IsAttrs m.attrs
IsValid (Message.close m) = Fits m.handle.bytes
IsValid (Message.read m) = Fits m.handle.bytes × IsU64 m.offset × IsU32 m.length
IsValid (Message.write m) = Fits m.handle.bytes × IsU64 m.offset × Fits m.payload.bytes
IsValid (Message.lstat m) = IsPath m.path
IsValid (Message.fstat m) = Fits m.handle.bytes
IsValid (Message.setstat m) = IsPath m.path × IsAttrs m.attrs
IsValid (Message.fsetstat m) = Fits m.handle.bytes × IsAttrs m.attrs
IsValid (Message.opendir m) = IsPath m.path
IsValid (Message.readdir m) = Fits m.handle.bytes
IsValid (Message.remove m) = IsPath m.path
IsValid (Message.mkdir m) = IsPath m.path × IsAttrs m.attrs
IsValid (Message.rmdir m) = IsPath m.path
IsValid (Message.realpath m) = IsPath m.path
IsValid (Message.stat m) = IsPath m.path
IsValid (Message.rename m) = IsPath m.old_path × IsPath m.new_path
IsValid (Message.readlink m) = IsPath m.path
IsValid (Message.symlink m) = IsPath m.link_path × IsPath m.target_path
IsValid (Message.status m) = IsText m.error × IsText m.language
IsValid (Message.handle m) = Fits m.bytes
IsValid (Message.content m) = Fits m.bytes
IsValid (Message.name m) = (length m.entries ≤ u32_max) × All IsEntry m.entries
IsValid (Message.attrs m) = IsAttrs m
IsValid (Message.extended m) = Fits m.request × Fits m.payload
IsValid (Message.extended_reply m) = Fits m.payload
