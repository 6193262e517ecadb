-- ===== src/Daemon/Client/Tokens.antt =====
-- The token of the daemon against the token of the client.
use bugpot.Base.{
  true, Bool, Option, leb, ◌&&◌, all, list_beq_iff, none, some, ◌++◌, Result, ok, err, ◌≡◌, refl,
  ◌>>◌, ◌>>=◌, arith, ok_or, inl, inr, Bool-cases,
}
use bugpot.Base.Text.{Str, codes, trim, is_empty, bytes}
use bugpot.Admin.Auth.{from_token, check}
use bugpot.Daemon.Secrets.{Environment, non_empty, read_from_file}
use bugpot.Daemon.Client.{resolve_token, token_in}

token_of :
    (read_to_string : Str → Result Str Str) (file_var kind : Str) (owner : Result (Unit {0}) Str)
    (body : Result Str Str) {token : Str}
    → (owner >> (body >>= (λ b. ok_or (non_empty b) (kind ++ codes " file is empty")))) ≡ ok token
    → token_in read_to_string file_var body ≡ ok token
unfolding non_empty
token_of read_to_string file_var kind (err why) body read = cc
token_of read_to_string file_var kind (ok _) (err why) read = cc
token_of read_to_string file_var kind (ok _) (ok b) read = elim (Bool-cases (is_empty (trim b))) [
  | inl blank ↦ absurd (ground (arith, read, blank))
  | inr has_text ↦ ground (arith, read, has_text)
]

-- Visible ASCII, with the space.
abbrev pub is_visible : Str → Bool
is_visible token = all (λ c. leb 32 c && leb c 126) token

-- What the `http` crate documents of header values: a text of visible ASCII makes one, and is read
-- back from it.
pub record HeaderValues (Value : Type 0) : Type 0 where
  pub from_str : Str → Option Value
  pub to_str : Value → Option Str
  pub kept :
      (s : Str) → is_visible s ≡ true → (v : Value) × (from_str s ≡ some v) × (to_str v ≡ some s)

-- The header that `bearer_auth` sets.
abbrev pub bearer_auth : {Value : Type 0} → HeaderValues Value → Str → Option Value
bearer_auth http token = http.from_str (codes "Bearer " ++ token)

-- A token that the daemon reads from a file is the token that the client reads from a file with the
-- same text; and when it is visible ASCII, the header that the client makes of it passes the daemon's
-- check.
pub token-accepted :
    {Value : Type 0} (http : HeaderValues Value) (env : Environment) (kind path : Str)
    (read_to_string : Str → Result Str Str) (file direct_var file_var : Str) {token : Str}
    → read_from_file env kind path ≡ ok token
    → read_to_string file ≡ env.read_to_string path
    → is_visible token ≡ true
    → (resolve_token read_to_string none (some file) direct_var file_var ≡ ok token)
      × (check http.to_str (from_token token) (bearer_auth http token) ≡ ok tt)
unfolding resolve_token read_from_file non_empty check from_token
token-accepted http env kind path read_to_string file direct_var file_var {token} read same
      visible =
    let (v, made, back) = http.kept (codes "Bearer " ++ token) visible in
    (
      rw same (
          token_of read_to_string file_var kind (env.require_owner_only path)
            (env.read_to_string path) read),
      rw (made, back, (list_beq_iff (bytes token) (bytes token)).1 refl) refl,
    )
