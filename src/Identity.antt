-- ===== src/Identity.antt =====
-- tmux/identity.go and tmux/server.go: the identity of one daemon. A start time is its number of
-- seconds, and `none` is Go's zero time; a process id and a user id are not negative.
use gotmux.Prelude.{ℕ, Bool, true, false, not, ◌&&◌, Option, none, some, Bytes, bytes_eq, ltb, ◌==◌}
use gotmux.Prelude.Space.{is_empty}

pub record Endpoint : Type 0 where
  pub socket_path : Bytes
  pub socket_name : Bytes
  pub temp_dir : Bytes
  pub uid : ℕ

pub record ServerIdentity : Type 0 where
  pub endpoint : Endpoint
  pub reported_socket : Bytes
  pub pid : ℕ
  pub started : Option ℕ
  pub generation : ℕ

-- `Started.Equal`
unfoldable pub same_time : Option ℕ → Option ℕ → Bool
same_time none none = true
same_time none (some b) = false
same_time (some a) none = false
same_time (some a) (some b) = a == b

-- `==` on endpoints.
unfoldable pub same_endpoint : Endpoint → Endpoint → Bool
same_endpoint a b =
    bytes_eq a.socket_path b.socket_path
    && bytes_eq a.socket_name b.socket_name
    && bytes_eq a.temp_dir b.temp_dir
    && a.uid == b.uid

unfoldable pub same_daemon : ServerIdentity → ServerIdentity → Bool
same_daemon a b =
    same_endpoint a.endpoint b.endpoint
    && bytes_eq a.reported_socket b.reported_socket
    && a.pid == b.pid
    && same_time a.started b.started

-- `ServerIdentity.Equal`
unfoldable pub identity_equal : ServerIdentity → ServerIdentity → Bool
identity_equal a b = same_daemon a b && a.generation == b.generation

unfoldable pub has_started : Option ℕ → Bool
has_started none = false
has_started (some _) = true

-- `ServerIdentity.valid`
unfoldable pub valid_identity : ServerIdentity → Bool
unfolding has_started is_empty
valid_identity id = ltb 0 id.pid && has_started id.started && not (is_empty id.reported_socket)

-- `Endpoint.isZero` and `ServerIdentity.isZero`
unfoldable pub is_zero_endpoint : Endpoint → Bool
is_zero_endpoint e =
    is_empty e.socket_path && is_empty e.socket_name && is_empty e.temp_dir && e.uid == 0

unfoldable pub is_zero_identity : ServerIdentity → Bool
is_zero_identity id =
    id.pid == 0
    && not (has_started id.started)
    && is_empty id.reported_socket
    && is_zero_endpoint id.endpoint
    && id.generation == 0
