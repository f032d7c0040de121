-- ===== src/Config.antt =====
-- packages/gateway/src/config/schema.ts: the configuration as it is after parsing, with the defaults
-- filled in. `.optional()` is Option. What zod checks of a value is a predicate beside its type.
use apigateaway.Common.{ℕ, Bool, true, false, Option, List, ◌||◌, Text, Dict, is_some, any, not}
use apigateaway.Breaker.{CircuitBreakerOptions}
use apigateaway.RateLimit.Store.{AlgorithmName}

pub record HealthCheckConfig : Type 0 where
  pub path : Text
  pub interval_ms : ℕ

-- `strategy` has one value, round robin.
pub record UpstreamConfig : Type 0 where
  pub targets : List Text
  pub health_check : Option HealthCheckConfig
  pub timeout_ms : ℕ
  pub body_timeout_ms : Option ℕ

pub record JwtConfig : Type 0 where
  pub jwks_url : Text
  pub issuer : Option Text
  pub audience : Option Text
  pub tenant_claim : Option Text
  pub scope_claim : Option Text

pub data AuthConfig : Type 0 where
  no_auth : AuthConfig
  api_key : AuthConfig
  jwt : JwtConfig → AuthConfig

pub record GlobalRateLimitConfig : Type 0 where
  pub limit : ℕ
  pub window_sec : ℕ
  pub burst : Option ℕ

pub data KeyStrategy : Type 0 where
  by_tenant by_ip by_global : KeyStrategy

pub record RateLimitConfig : Type 0 where
  pub algorithm : AlgorithmName
  pub key_by : List KeyStrategy
  pub limit : ℕ
  pub window_sec : ℕ
  pub burst : Option ℕ
  pub global : Option GlobalRateLimitConfig

abbrev pub is_global : KeyStrategy → Bool
is_global by_tenant = false
is_global by_ip = false
is_global by_global = true

-- The check of `superRefine`: a global key needs a global policy.
unfoldable pub is_refined : RateLimitConfig → Bool
is_refined c = not (any is_global c.key_by) || is_some c.global

pub record CacheConfig : Type 0 where
  pub enabled : Bool
  pub ttl_sec : ℕ
  pub vary_by : List Text

-- `transform.request`
pub record RequestTransform : Type 0 where
  pub set_headers : Dict Text
  pub remove_headers : List Text

pub record CorsConfig : Type 0 where
  pub enabled : Bool
  pub origins : List Text
  pub methods : List Text
  pub allowed_headers : List Text
  pub exposed_headers : List Text
  pub credentials : Bool
  pub max_age_sec : ℕ

pub record MessageRateLimitConfig : Type 0 where
  pub algorithm : AlgorithmName
  pub limit : ℕ
  pub window_sec : ℕ
  pub burst : Option ℕ

pub record WebSocketConfig : Type 0 where
  pub enabled : Bool
  pub origins : Option (List Text)
  pub query_token : Bool
  pub max_connections : ℕ
  pub max_message_bytes : ℕ
  pub max_buffered_bytes : ℕ
  pub ping_interval_ms : ℕ
  pub idle_timeout_ms : ℕ
  pub message_rate_limit : Option MessageRateLimitConfig

pub record RetryConfig : Type 0 where
  pub attempts : ℕ
  pub backoff_ms : ℕ

-- `methods` holds the names, as the request's method is a text.
pub record MatchConfig : Type 0 where
  pub path : Text
  pub methods : Option (List Text)
  pub host : Option Text

pub record RouteConfig : Type 0 where
  pub id : Text
  pub match_on : MatchConfig
  pub strip_prefix : Option Text
  pub upstream : UpstreamConfig
  pub auth : AuthConfig
  pub rate_limit : Option RateLimitConfig
  pub cache : Option CacheConfig
  pub cors : Option CorsConfig
  pub websocket : Option WebSocketConfig
  pub transform : Option RequestTransform
  pub retry : Option RetryConfig
  pub circuit_breaker : Option CircuitBreakerOptions

pub record ServerConfig : Type 0 where
  pub port : ℕ
  pub trust_proxy_hops : ℕ
  pub max_body_bytes : ℕ
  pub max_header_count : ℕ
  pub request_timeout_ms : ℕ
  pub watch : Bool

pub record RedisConfig : Type 0 where
  pub url : Text
  pub fail_open : Bool

pub record DbConfig : Type 0 where
  pub url : Text

pub record AdminConfig : Type 0 where
  pub token : Text

pub record GatewayConfig : Type 0 where
  pub server : ServerConfig
  pub redis : Option RedisConfig
  pub db : Option DbConfig
  pub admin : Option AdminConfig
  pub routes : List RouteConfig
