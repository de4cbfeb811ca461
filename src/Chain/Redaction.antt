-- ===== src/Chain/Redaction.antt =====
-- What `redact_url` of src/chain.rs leaves of a URL.
use Prim.Native.Char.{Char, code}
use buyback.Base.{
  ℕ, String, Option, none, some, Bool, true, ◌&&◌, not, ◌==◌, ◌≡◌, ◌≢◌, all_chars, push_str,
  unwrap_or,
}
use buyback.Chain.Endpoints.{ends_host, host_part, after_at}

-- No character that ends a host, and no `@`.
abbrev pub is_host_char : ℕ → Bool
is_host_char c = not (ends_host c) && not (c == 0x40)

-- The text starts with a character that ends a host.
abbrev pub starts_path : String → Bool
starts_path String.[] = true
starts_path (String.◌∷◌ c s) = ends_host (code c)

-- The text is empty or ends with `@`.
pub data EndsWithAt : String → Type 0 where
  nothing : EndsWithAt String.[]
  at_end : (before : String) → EndsWithAt (push_str before "@")

-- The text contains no `://`.
abbrev pub HasNoSeparator : String → Type 0
HasNoSeparator s = (before after : String) → push_str before (push_str "://" after) ≢ s

-- The scheme ends at the first `://`: whatever else stands before a `://` starts with the scheme and more.
abbrev pub EndsFirst : (scheme url : String) → Type 0
EndsFirst scheme url =
    (before after : String)
    → push_str before (push_str "://" after) ≡ url
    → (more : String) × (before ≡ push_str scheme more)

-- The URL in four parts, of which the redacted text has the first and the third.
pub record IsRedacted (url redacted : String) : Type 0 where
  pub scheme : String
  pub user : String
  pub host : String
  pub path : String
  pub is_url : push_str scheme (push_str "://" (push_str user (push_str host path))) ≡ url
  pub is_first : EndsFirst scheme url
  pub is_redacted : redacted ≡ push_str scheme (push_str "://" host)
  pub is_host : all_chars is_host_char host ≡ true
  pub user_ends : EndsWithAt user
  pub path_starts : starts_path path ≡ true

abbrev cut_at : Option (String × String) → String
cut_at (some (scheme, rest)) =
    push_str scheme (push_str "://" (unwrap_or (after_at (host_part rest)) (host_part rest)))
cut_at none = "<invalid url>"
