-- ===== src/Docker/Image.antt =====
-- src/docker/docker.service.ts: the pattern of `MINECRAFT_IMAGE`.
use Prim.Native.Char.{code}
use Prim.Native.String.{[], ◌∷◌}
use minepanel_backend.Common.{
  ℕ, ◌+◌, String, Bool, true, false, ◌&&◌, ◌||◌, none, some, leb, ◌==◌, if◌then◌else◌, nat_eq,
}
use minepanel_backend.Text.{all_chars, count_chars, is_alnum, is_hex_digit, split_at, classes}

-- `[a-z0-9]` under the flags i and u, which also let U+017F and U+212A stand for s and k
is_word : ℕ → Bool
is_word c = is_alnum c || c == 383 || c == 8490

-- `[a-z0-9]+(?:[._/-][a-z0-9]+)*`, read from the left; the flag says that a run has begun
is_name_from : Bool → String → Bool
is_name_from run [] = run
is_name_from run (c ∷ s) =
    if is_word (code c)
    then is_name_from true s
    else (if run && (code c == b'.' || code c == b'_' || code c == b'/' || code c == b'-')
        then is_name_from false s
        else false)

is_tag_char : ℕ → Bool
is_tag_char c = is_word c || c == b'.' || c == b'_' || c == b'-'

is_tag : String → Bool
is_tag [] = false
is_tag (c ∷ s) = is_word (code c) && all_chars is_tag_char s

lower_ascii : ℕ → ℕ
lower_ascii c = if leb b'A' c && leb c b'Z' then c + 32 else if c == 383 then b's' else c

-- `sha256:[a-f0-9]{64}`, in any case
same_ignoring_case : String → String → Bool
same_ignoring_case [] [] = true
same_ignoring_case (c ∷ s) (d ∷ t) = lower_ascii (code c) == code d && same_ignoring_case s t
same_ignoring_case _ _ = false

is_digest : String → Bool
is_digest text = elim (split_at b':' text) [
  | none ↦ false
  | some (algorithm, hex) ↦
      same_ignoring_case algorithm "sha256" && all_chars is_hex_digit hex && count_chars hex == 64
]

is_tag_and_digest : String → Bool
is_tag_and_digest text = elim (split_at b'@' text) [
  | none ↦ is_tag text
  | some (tag, digest) ↦ is_tag tag && is_digest digest
]

-- the regular expression of `MINECRAFT_IMAGE`
unfoldable pub is_image : String → Bool
unfolding is_word is_name_from is_tag_char is_tag lower_ascii same_ignoring_case is_digest
    is_tag_and_digest classes
is_image text = elim (split_at b':' text) [
  | none ↦ false
  | some (name, rest) ↦ is_name_from false name && is_tag_and_digest rest
]
