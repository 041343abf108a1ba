-- ===== src/FileUtils.antt =====
-- `read_appended_lines` of agent/utils/file_utils.py. A file is the text that its bytes are, a
-- valid UTF-8 text; a file position is a number of bytes, or a cookie of the decoder. The file is
-- opened in text mode: each of the line ends `\n`, `\r\n` and `\r` is read as `\n`.
pub mod Reading
pub mod Growth
use atm_monitoring_agent.Prelude.{
  ℕ, zero, suc, ◌+◌, ◌-◌, ◌*◌, ◌/◌, ◌%◌, Bool, true, false, List, [], ◌∷◌, ◌++◌, length, ltb, leb,
  take, ◌&&◌, if◌then◌else◌, ◌==◌,
}
use atm_monitoring_agent.ParserModels.{Text}
use atm_monitoring_agent.TextOps.{newline}

unfoldable pub utf8 : ℕ → List ℕ
utf8 c =
    if ltb c 0x80
    then c ∷ []
    else if ltb c 0x800
    then (0xc0 + c / 64) ∷ (0x80 + c % 64) ∷ []
    else if ltb c 0x10000
    then (0xe0 + c / 4096) ∷ (0x80 + c / 64 % 64) ∷ (0x80 + c % 64) ∷ []
    else (0xf0 + c / 262144) ∷ (0x80 + c / 4096 % 64) ∷ (0x80 + c / 64 % 64) ∷ (0x80 + c % 64) ∷ []

-- `str.encode('utf-8')`
unfoldable pub bytes : Text → List ℕ
bytes [] = []
bytes (c ∷ cs) = utf8 c ++ bytes cs

-- `os.path.getsize`, and `len(line.encode(…))`
abbrev pub size : Text → ℕ
size t = length (bytes t)

-- The text behind a position. A position inside a character skips the rest of it, since the decoder
-- ignores errors.
unfoldable pub seek : ℕ → Text → Text
seek zero t = t
seek (suc n) [] = []
seek (suc n) (c ∷ cs) = seek (suc n - length (utf8 c)) cs

abbrev pub skip_newline : Text → Text
skip_newline [] = []
skip_newline (c ∷ cs) = if c == newline then cs else c ∷ cs

-- `f.readline()`: the line and what is behind it; the last line may have no line end
unfoldable pub readline : Text → Text × Text
readline [] = ([], [])
readline (c ∷ cs) =
    let (line, rest) = readline cs in
    if c == newline
    then (newline ∷ [], cs)
    else if c == 13
    then (newline ∷ [], skip_newline cs)
    else (c ∷ line, rest)

-- The loop of the lines, on fuel; `read` is `bytes_read`.
unfoldable pub read_lines : ℕ → ℕ → ℕ → Text → List Text × Text
read_lines zero max_bytes read t = ([], t)
read_lines (suc fuel) max_bytes read [] = ([], [])
read_lines (suc fuel) max_bytes read (c ∷ cs) =
    let (line, rest) = readline (c ∷ cs) in
    let (lines, left) = read_lines fuel max_bytes (read + length (bytes line)) rest in
    if ltb read max_bytes then (line ∷ lines, left) else ([], c ∷ cs)

abbrev pub max_bytes : ℕ
max_bytes = 10485760

-- the bytes that the loop counts for its lines
abbrev pub counted : List Text → ℕ
counted [] = 0
counted (line ∷ lines) = length (bytes line) + counted lines

-- The text begins with a carriage return.
unfoldable pub begins_with_return : Text → Bool
begins_with_return [] = false
begins_with_return (c ∷ cs) = c == 13

-- The text ends in a carriage return.
unfoldable pub ends_in_return : Text → Bool
ends_in_return [] = false
ends_in_return (c ∷ []) = c == 13
ends_in_return (c ∷ d ∷ cs) = ends_in_return (d ∷ cs)

-- `f.tell()` where the decoder holds a carriage return back until it has seen what follows: the
-- position with the decoder's flag from bit 64 on, the bytes that it must be fed from bit 96 on, the
-- characters to skip from bit 128 on, and whether it must see the end of the file from bit 160 on.
unfoldable pub cookie : ℕ → Text → ℕ
cookie pos [] =
    pos + 18446744073709551616 + 340282366920938463463374607431768211456
    + 1461501637330902918203684832716283019655932542976
cookie pos (c ∷ cs) =
    if c == 13
    then pos + 1 + 18446744073709551616
    else pos
      + 18446744073709551616
      + length (utf8 c) * 79228162514264337593543950336
      + 340282366920938463463374607431768211456

-- `f.tell()` behind the text `taken`. At the end of the file it is the position in bytes. Where the loop
-- ended at the limit, it is a cookie right behind a carriage return that no newline follows; and if a
-- carriage return follows, the search for a place to go on from, which starts with the mean length of a
-- character in the chunk that was read, may stop `behind` it with the decoder's flag.
abbrev pub tell : Bool → Bool → ℕ → Text → Text → ℕ
tell behind limited pos taken left =
    if limited && ends_in_return taken
    then cookie pos left
    else if limited && (behind && begins_with_return left)
    then pos + 1 + 18446744073709551616
    else pos

-- One attempt that opens the file: the lines, the new offset and the file's size.
unfoldable pub read_from : Bool → Text → ℕ → List Text × ℕ × ℕ
unfolding seek bytes begins_with_return ends_in_return cookie
read_from behind content offset =
    let file_size = length (bytes content) in
    let start : ℕ = if ltb file_size offset then 0 else offset in
    let t = seek start content in
    let (lines, left) = read_lines (length t) max_bytes 0 t in
    let pos : ℕ = start + (length (bytes t) - length (bytes left)) in
    let taken = take (length t - length left) t in
    (lines, tell behind (leb max_bytes (counted lines)) pos taken left, file_size)

-- The attempts, of which `locked i` fails with an OSError at its first call; the last failure gives
-- no lines.
abbrev pub read_attempts : ℕ → ℕ → (ℕ → Bool) → Bool → Text → ℕ → List Text × ℕ × ℕ
read_attempts zero i locked behind content offset = ([], offset, 0)
read_attempts (suc n) i locked behind content offset =
    if locked i
    then read_attempts n (i + 1) locked behind content offset
    else read_from behind content offset

-- There are as many attempts as delays.
unfoldable pub read_appended_lines : (ℕ → Bool) → Bool → Text → ℕ → List Text × ℕ × ℕ
read_appended_lines locked behind content offset = read_attempts 5 0 locked behind content offset
