-- ===== src/Backend.antt =====
-- internal/backend/backend.go: the client of the backend's enrollment tokens.
use Prim.Native.String.{◌++◌ as append}
use sandbox_manager.Prelude.{
  ℕ, ◌/◌, String, ◌==◌, if◌then◌else◌, Result, ok, err, failure, wrap, Exec,
}
use sandbox_manager.Config.Ssh.{trim_slashes}

pub record Client : Type 0 where
  pub base_url : String
  pub api_key : String

-- New
unfoldable pub new_client : String → String → Client
unfolding trim_slashes
new_client base_url api_key = record { base_url = trim_slashes base_url; api_key = api_key }

-- The POST, with its body and headers.
pub record MintRequest : Type 0 where
  pub url : String
  pub content_type : String
  pub x_api_key : String
  pub user_id : String
  pub ttl_sec : ℕ
  pub sandbox_id : String

pub record MintReply : Type 0 where
  pub status_code : ℕ
  pub body : String

-- What the client uses of net/http, and the decoder of the reply's JSON.
pub record Transport : Type 1 where
  pub Net : Type 0
  pub send : MintRequest → Exec Net MintReply
  pub decode_token : String → Result String

unfoldable pub mint_request : Client → String → String → ℕ → MintRequest
mint_request c user_id sandbox_id ttl_sec = record {
  url = append c.base_url "/admin/v1/enroll/mint";
  content_type = "application/json";
  x_api_key = c.api_key;
  user_id = user_id;
  ttl_sec = ttl_sec;
  sandbox_id = sandbox_id;
}

module _ (t : Transport) where
  open t use {Net}

  unfoldable pub token_of : Result MintReply → Result String
  token_of (err e) = err (wrap "mint request" e)
  token_of (ok reply) =
      if reply.status_code / 100 == 2
      then t.decode_token reply.body
      else err (failure (append "mint failed: " reply.body))

  -- MintEnrollToken
  unfoldable pub mint_enroll_token : Client → String → String → ℕ → Exec Net String
  unfolding mint_request token_of
  mint_enroll_token c user_id sandbox_id ttl_sec h =
      let (r, h') = t.send (mint_request c user_id sandbox_id ttl_sec) h in (token_of r, h')
