-- ===== src/Broadcast/Texts.antt =====
-- The tests that BroadcastConsumer.ts and BroadcastOrchestrator.ts make on texts: the regular
-- expressions, blank texts and hex texts, over the codes of their characters.
use wallet_toolbox_rocksdb.Base.{
  ℕ, ◌+◌, Bool, true, false, not, ◌&&◌, ◌||◌, List, ◌∷◌, [], leb, ◌==◌, if◌then◌else◌,
}
use mathlib.Core.List.{reverse}
use Prim.Native.Char.{code}
use Prim.Native.String.{String}

abbrev pub codes : String → List ℕ
codes String.[] = []
codes (String.◌∷◌ c s) = code c ∷ codes s

-- A letter, without regard to its case, or `.?`.
pub data Item : Type 0 where
  letter : ℕ → Item
  maybe_any : Item

pub lower : ℕ → ℕ
lower c = if leb 65 c && leb c 90 then c + 32 else c

is_line_end : ℕ → Bool
is_line_end c = c == 10 || c == 13 || c == 8232 || c == 8233

matches_here : List Item → List ℕ → Bool
unfolding lower is_line_end
matches_here [] cs = true
matches_here (letter a ∷ ps) [] = false
matches_here (letter a ∷ ps) (c ∷ cs) = a == lower c && matches_here ps cs
matches_here (maybe_any ∷ ps) [] = matches_here ps []
matches_here (maybe_any ∷ ps) (c ∷ cs) =
    matches_here ps (c ∷ cs) || (not (is_line_end c) && matches_here ps cs)

-- The pattern matches somewhere in the text.
pub matches : List Item → List ℕ → Bool
unfolding matches_here
matches ps [] = matches_here ps []
matches ps (c ∷ cs) = matches_here ps (c ∷ cs) || matches ps cs

-- The letters of a text without capitals, in front of the rest of a pattern.
abbrev pub letters : List ℕ → List Item → List Item
letters [] rest = rest
letters (c ∷ cs) rest = letter c ∷ letters cs rest

abbrev pub any_match : List String → List ℕ → Bool
unfolding matches
any_match [] cs = false
any_match (w ∷ ws) cs = matches (letters (codes w) []) cs || any_match ws cs

-- `/rate.?limit|429/i`
pub names_rate_limit : String → Bool
unfolding matches
names_rate_limit s =
    matches (letters (codes "rate") (maybe_any ∷ letters (codes "limit") [])) (codes s)
    || any_match ("429" ∷ []) (codes s)

-- `/timeout|timed out/i`
pub names_timeout : String → Bool
names_timeout s = any_match ("timeout" ∷ "timed out" ∷ []) (codes s)

-- `isMalformedBroadcastError`, on the message of the error.
pub names_malformed : String → Bool
names_malformed s =
    any_match
      ("txbroadcastmessage" ∷ "rawtxhash" ∷ "json" ∷ "unexpected" ∷ "object" ∷ "must not"
        ∷ "required" ∷ "malformed" ∷ [])
      (codes s)

-- The white space of `String.prototype.trim`.
pub is_space : ℕ → Bool
is_space c =
    (leb 9 c && leb c 13)
    || c == 32
    || c == 160
    || c == 5760
    || (leb 8192 c && leb c 8202)
    || c == 8232
    || c == 8233
    || c == 8239
    || c == 8287
    || c == 12288
    || c == 65279

pub is_blank : List ℕ → Bool
unfolding is_space
is_blank [] = true
is_blank (c ∷ cs) = is_space c && is_blank cs

-- White space at the start or at the end, which `trim` would remove.
abbrev pub starts_with_space : List ℕ → Bool
unfolding is_space
starts_with_space [] = false
starts_with_space (c ∷ cs) = is_space c

pub is_trimmed : List ℕ → Bool
is_trimmed cs = not (starts_with_space cs) && not (starts_with_space (reverse cs))

pub is_hex_digit : ℕ → Bool
is_hex_digit c = (leb 48 c && leb c 57) || (leb 65 c && leb c 70) || (leb 97 c && leb c 102)

-- `/^(?:[0-9a-fA-F]{2})*$/`
pub is_hex_pairs : List ℕ → Bool
unfolding is_hex_digit
is_hex_pairs [] = true
is_hex_pairs (a ∷ []) = false
is_hex_pairs (a ∷ b ∷ cs) = is_hex_digit a && is_hex_digit b && is_hex_pairs cs

-- What the texts unfold, for runs.
unfoldable pub texts_run : Unit {0}
unfolding matches matches_here lower is_line_end names_rate_limit names_timeout names_malformed
    is_space is_blank is_trimmed is_hex_digit is_hex_pairs
texts_run = tt
