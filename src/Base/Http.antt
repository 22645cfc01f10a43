-- ===== src/Base/Http.antt =====
-- pkg/base/http.go: the construction of HTTP clients. A duration is a number of nanoseconds.
use freno.Prelude.{ℕ, Bool, false, if◌then◌else◌, ◌==◌}
use freno.Go.Time.{second}

-- The fields of http.Client and its transport that the code sets.
pub record HttpClient : Type 0 where
  pub insecure_skip_verify : Bool
  pub dial_timeout : ℕ
  pub response_header_timeout : ℕ

unfoldable pub setup_http_client : ℕ → HttpClient
setup_http_client http_timeout =
    let timeout : ℕ = if http_timeout == 0 then second else http_timeout in
    record {
      insecure_skip_verify = false;
      dial_timeout = timeout;
      response_header_timeout = timeout;
    }
