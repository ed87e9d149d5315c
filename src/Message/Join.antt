-- ===== src/Message/Join.antt =====
-- src/message/path.rs: appending to a path by `/=` and `/`. The first and the last `char` of a text
-- are `/` exactly if its first and its last byte are that of `/`, since in UTF-8 this byte stands for
-- nothing else. The conversions of the file stand in Conversions.
pub mod Laws
use rusftp.Prelude.{ℕ, [], ◌∷◌, ◌++◌, Option, none, some, ◌==◌, if◌then◌else◌}
use rusftp.Message.Types.{Bytes, FilePath}

abbrev pub slash : ℕ
slash = 47

-- `chars().last()`
unfoldable pub last : Bytes → Option ℕ
last [] = none
last (c ∷ []) = some c
last (c ∷ d ∷ text) = last (d ∷ text)

-- `match self.0.chars().last() { … }`, where the text is not empty.
unfoldable pub push_separator : Bytes → Bytes
unfolding last
push_separator text = elim (last text) [
  | none ↦ text
  | some c ↦ if c == slash then text else text ++ slash ∷ []
]

-- The body of `DivAssign<String>`, and of `DivAssign<&T>`, on the texts.
unfoldable pub join : Bytes → Bytes → Bytes
unfolding push_separator
join [] rhs = rhs
join (c ∷ text) [] = c ∷ text
join (c ∷ text) (r ∷ rhs) = if r == slash then r ∷ rhs else push_separator (c ∷ text) ++ r ∷ rhs

unfoldable pub div_assign : FilePath → Bytes → FilePath
unfolding join
div_assign p rhs = record { text = join p.text rhs }

-- `Div` by a `Path`, which is `DivAssign<Path>`.
unfoldable pub div : FilePath → FilePath → FilePath
unfolding div_assign
div p rhs = div_assign p rhs.text
