-- ===== src/Sql/Compact.antt =====
-- `CompactSQL` of infra/db/postgresx/util.go: a scanner that folds white space and drops comments.
-- Each of its closures is a function on the variables that it closes over; what a closure writes to
-- the builder is its first result.
pub mod Bounds
pub mod Words
pub mod Quotes
pub mod Comments
mod Tests
use im_providers_service.Prelude.{
  ℕ, Bool, true, false, not, ◌&&◌, ◌||◌, List, [], ◌∷◌, ◌++◌, ◌==◌, nat_eq, ltb, if◌then◌else◌,
}

-- The variables `last`, `hold`, `space`, `quote` and `comment`; 0 stands for none, as in the source.
pub record Scan : Type 0 where
  pub last : ℕ
  pub hold : ℕ
  pub space : Bool
  pub quote : ℕ
  pub comment : ℕ

abbrev pub start : Scan
start = record { last = 0; hold = 0; space = false; quote = 0; comment = 0 }

pub is_space : ℕ → Bool
is_space c = (ltb 8 c && ltb c 14) || c == 32 || c == 0x85 || c == 0xa0

pub is_punct : ℕ → Bool
is_punct c =
    c == 0
    || c == b','
    || c == b'('
    || c == b')'
    || c == b'['
    || c == b']'
    || c == b';'
    || c == 39
    || c == 34
    || c == b'+'
    || c == b'-'
    || c == b'*'
    || c == b'/'
    || c == b'<'
    || c == b'>'
    || c == b'='
    || c == b'~'
    || c == b'!'
    || c == b'@'
    || c == b'#'
    || c == b'%'
    || c == b'^'
    || c == b'&'
    || c == b'|'

pub is_quote : ℕ → Bool
is_quote c = c == 39 || c == 34

-- The result of `isComment`, and the variables that it leaves.
pub is_comment : ℕ → Scan → Bool × Scan
is_comment c s =
    if s.comment == b'-'
    then (true, if c == 10 then record s { space = true; comment = 0; hold = 0 } else s)
    else if s.comment == b'*'
    then (
      true,
      if s.hold == 0 && c == b'*'
          then record s { hold = c }
          else if s.hold == b'*' && c == b'/'
          then record s { space = true; comment = 0; hold = 0 }
          else s,
    )
    else if s.hold == b'-'
    then (if c == s.hold then (true, record s { hold = 0; comment = c }) else (false, s))
    else if s.hold == b'/'
    then (if c == b'*' then (true, record s { hold = 0; comment = c }) else (false, s))
    else if s.hold == 0
    then (if c == b'-' || c == b'/' then (true, record s { hold = c }) else (false, s))
    else (false, s)

pub is_literal : ℕ → Scan → Bool × Scan
is_literal c s =
    if not (is_quote c) || s.last == 92
    then (ltb 0 s.quote, s)
    else if s.quote == c
    then (true, record s { quote = 0 })
    else (true, record s { quote = c })

-- The held character, if there is one.
pub held : Scan → List ℕ
held s = if ltb 0 s.hold then s.hold ∷ [] else []

-- What is the last character written once the held one is out.
pub last_written : Scan → ℕ
last_written s = if ltb 0 s.hold then s.hold else s.last

-- The injected space, between two characters that are no punctuation.
pub injected : ℕ → Scan → List ℕ
injected c s =
    if s.space && not (is_punct (last_written s)) && not (is_punct c) then 32 ∷ [] else []

pub output : ℕ → Scan → List ℕ × Scan
output c s = (held s ++ (injected c s ++ c ∷ []), record s { last = c; hold = 0; space = false })

-- The rest of a round, for a character that is in no comment.
pub text_step : ℕ → Scan → List ℕ × Scan
text_step c s =
    let (literal, s') = is_literal c s in
    if literal
    then output c s'
    else if is_space c
    then ([], record s' { space = true })
    else output c s'

-- One round of the loop.
pub step : ℕ → Scan → List ℕ × Scan
step c s = let (comment, s') = is_comment c s in if comment then ([], s') else text_step c s'

pub scan : Scan → List ℕ → List ℕ
scan s [] = []
scan s (c ∷ text) = (step c s).0 ++ scan (step c s).1 text

pub compact_sql : List ℕ → List ℕ
compact_sql text = scan start text
