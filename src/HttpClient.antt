-- ===== src/HttpClient.antt =====
-- The HTTP client that newHTTPClientWithOps builds (internal/ociutil/remote.go), as it is put
-- together: the transport of net/http, the logging of HttpLog over it, and oras's retries over that.
use gnoci.Base.{ℕ, ◌*◌, List, Option, none, some, Bool, true}

-- A time.Duration of one second
abbrev second : ℕ
second = 1000000000

-- The fields of a tls.Config that the code sets, over pools of certificates `P` and key pairs `K`
pub record TlsConfig (P K : Type 0) : Type 0 where
  pub certificates : List K
  pub root_cas : Option P

pub record NetDialer : Type 0 where
  pub timeout : ℕ
  pub keep_alive : ℕ

-- What DialContext is: that of a net.Dialer, or a function that calls Dial of a proxy.Dialer
pub data Dial (N : Type 0) : Type 0 where
  net_dial : NetDialer → Dial N
  proxy_dial : N → Dial N

-- The fields of an http.Transport that the code sets; `proxied` says that Proxy is
-- http.ProxyFromEnvironment.
pub record Transport (P K N : Type 0) : Type 0 where
  pub proxied : Bool
  pub dial_context : Dial N
  pub force_attempt_http2 : Bool
  pub max_idle_conns : ℕ
  pub idle_conn_timeout : ℕ
  pub tls_handshake_timeout : ℕ
  pub expect_continue_timeout : ℕ
  pub tls_client_config : Option (TlsConfig P K)

-- The round trippers: an http.Transport, a LoggingTransport over its Base, a retry.Transport
pub data RoundTripper (P K N : Type 0) : Type 0 where
  transported : Transport P K N → RoundTripper P K N
  logged : RoundTripper P K N → RoundTripper P K N
  retried : RoundTripper P K N → RoundTripper P K N

pub record HttpClient (P K N : Type 0) : Type 0 where
  pub transport : RoundTripper P K N

module _ {P K N : Type 0} where
  unfoldable pub default_transport : Transport P K N
  default_transport = record {
    proxied = true;
    dial_context = net_dial (record { timeout = 30 * second; keep_alive = 30 * second });
    force_attempt_http2 = true;
    max_idle_conns = 100;
    idle_conn_timeout = 90 * second;
    tls_handshake_timeout = 10 * second;
    expect_continue_timeout = 1 * second;
    tls_client_config = none;
  }

  -- `none` is a nil dialer.
  unfoldable pub with_dialer : Option N → Transport P K N → Transport P K N
  with_dialer none t = t
  with_dialer (some d) t = record t { dial_context = proxy_dial d }

  -- The client for a configuration of TLS and the dialer that proxy.FromEnvironment gives
  unfoldable pub client_of : TlsConfig P K → Option N → HttpClient P K N
  unfolding default_transport with_dialer
  client_of ssl dialer = record {
    transport = retried (
        logged (
          transported
            (with_dialer dialer (record default_transport { tls_client_config = some ssl }))));
  }
