-- ===== src/Message/Types.antt =====
-- src/message/*.rs: one record for each message, and the message itself with its type codes.
-- A byte string is the list of its bytes, and a `String` the list of its UTF-8 bytes.
use rusftp.Prelude.{ℕ, List, Option, none}

abbrev pub Bytes : Type 0
Bytes = List ℕ

pub record Handle : Type 0 where
  pub bytes : Bytes

pub record Data : Type 0 where
  pub bytes : Bytes

-- `Path`; the name is taken by the equality of this language.
pub record FilePath : Type 0 where
  pub text : Bytes

pub record Owner : Type 0 where
  pub uid : ℕ
  pub gid : ℕ

pub record Time : Type 0 where
  pub atime : ℕ
  pub mtime : ℕ

-- A `bitflags!` type is the integer of its bits; unknown bits are kept.
pub record Permissions : Type 0 where
  pub bits : ℕ

pub record PFlags : Type 0 where
  pub bits : ℕ

pub record Attrs : Type 0 where
  pub size : Option ℕ
  pub owner : Option Owner
  pub perms : Option Permissions
  pub time : Option Time

-- `Attrs::new` and `Attrs::default`
abbrev pub no_attrs : Attrs
no_attrs = record { size = none; owner = none; perms = none; time = none }

-- `BTreeMap<Bytes, Bytes>`: its entries in the order of the keys.
abbrev pub Extensions : Type 0
Extensions = List (Bytes × Bytes)

pub data StatusCode : Type 0 where
  status_ok eof no_such_file permission_denied failure bad_message : StatusCode
  no_connection connection_lost op_unsupported : StatusCode

pub record NameEntry : Type 0 where
  pub filename : FilePath
  pub long_name : Bytes
  pub attrs : Attrs

pub record Init : Type 0 where
  pub version : ℕ
  pub extensions : Extensions

pub record Version : Type 0 where
  pub version : ℕ
  pub extensions : Extensions

pub record Open : Type 0 where
  pub filename : FilePath
  pub pflags : PFlags
  pub attrs : Attrs

pub record Close : Type 0 where
  pub handle : Handle

pub record Read : Type 0 where
  pub handle : Handle
  pub offset : ℕ
  pub length : ℕ

pub record Write : Type 0 where
  pub handle : Handle
  pub offset : ℕ
  pub payload : Data

pub record LStat : Type 0 where
  pub path : FilePath

pub record FStat : Type 0 where
  pub handle : Handle

pub record SetStat : Type 0 where
  pub path : FilePath
  pub attrs : Attrs

pub record FSetStat : Type 0 where
  pub handle : Handle
  pub attrs : Attrs

pub record OpenDir : Type 0 where
  pub path : FilePath

pub record ReadDir : Type 0 where
  pub handle : Handle

pub record Remove : Type 0 where
  pub path : FilePath

pub record MkDir : Type 0 where
  pub path : FilePath
  pub attrs : Attrs

pub record RmDir : Type 0 where
  pub path : FilePath

pub record RealPath : Type 0 where
  pub path : FilePath

pub record Stat : Type 0 where
  pub path : FilePath

pub record Rename : Type 0 where
  pub old_path : FilePath
  pub new_path : FilePath

pub record ReadLink : Type 0 where
  pub path : FilePath

pub record Symlink : Type 0 where
  pub link_path : FilePath
  pub target_path : FilePath

pub record Status : Type 0 where
  pub code : StatusCode
  pub error : Bytes
  pub language : Bytes

pub record Name : Type 0 where
  pub entries : List NameEntry

pub record Extended : Type 0 where
  pub request : Bytes
  pub payload : Bytes

pub record ExtendedReply : Type 0 where
  pub payload : Bytes

-- The enum of the macro `messages!`.
pub data Message : Type 0 where
  init : Init → Message
  version : Version → Message
  open_ : Open → Message
  close : Close → Message
  read : Read → Message
  write : Write → Message
  lstat : LStat → Message
  fstat : FStat → Message
  setstat : SetStat → Message
  fsetstat : FSetStat → Message
  opendir : OpenDir → Message
  readdir : ReadDir → Message
  remove : Remove → Message
  mkdir : MkDir → Message
  rmdir : RmDir → Message
  realpath : RealPath → Message
  stat : Stat → Message
  rename : Rename → Message
  readlink : ReadLink → Message
  symlink : Symlink → Message
  status : Status → Message
  handle : Handle → Message
  content : Data → Message
  name : Name → Message
  attrs : Attrs → Message
  extended : Extended → Message
  extended_reply : ExtendedReply → Message
