-- ===== src/Http/Limits.antt =====
-- packages/gateway/src/security/limits.ts
pub mod Laws
use apigateaway.Common.{
  ℕ, ◌+◌, Bool, true, false, ◌&&◌, Option, none, some, List, [], ◌∷◌, if◌then◌else◌, ◌<?◌, Text,
  lit, Dict, lookup, length,
}
use apigateaway.Proxy.Headers.{HeaderValue, IncomingHeaders}
use apigateaway.Cache.Policy.{Number, nan, whole, below_zero, number_of, raw_of}
use apigateaway.Http.{ReplyCall, sent}

-- The hook counts the keys of the headers.
unfoldable pub enforce_header_limit : ℕ → IncomingHeaders → List ReplyCall
enforce_header_limit max_header_count headers =
    if max_header_count <? length headers then sent 431 (lit "too_many_headers") none ∷ [] else []

abbrev pub number_of_header : Option HeaderValue → Number
number_of_header none = nan
number_of_header (some value) = number_of (raw_of (some value))

-- `Number(headers['content-length'])`, which is NaN without the header.
abbrev pub declared_length : IncomingHeaders → Number
declared_length headers = elim (lookup (lit "content-length") headers) [
  | none ↦ nan
  | some value ↦ number_of_header value
]

-- `Number.isFinite(declared) && declared > max`
abbrev pub exceeds : Number → ℕ → Bool
exceeds nan n = false
exceeds (whole m) n = n <? m
exceeds below_zero n = false

unfoldable pub enforce_body_limit : ℕ → IncomingHeaders → List ReplyCall
enforce_body_limit max_body_bytes headers =
    if exceeds (declared_length headers) max_body_bytes
    then sent 413 (lit "payload_too_large") none ∷ []
    else []

-- A chunk of the body, by its bytes.
abbrev pub Chunk : Type 0
Chunk = List ℕ

-- What the transform has passed on, and whether it broke off with `BodyTooLargeError`.
pub record Limited : Type 0 where
  pub passed_on : List Chunk
  pub too_large : Bool

abbrev pub passing : Chunk → Limited → Limited
passing chunk later = record { passed_on = chunk ∷ later.passed_on; too_large = later.too_large }

-- `transform` on the chunks in turn: `seen` is what it has counted.
unfoldable pub limit_from : ℕ → ℕ → List Chunk → Limited
limit_from seen max_body_bytes [] = record { passed_on = []; too_large = false }
limit_from seen max_body_bytes (chunk ∷ chunks) =
    let seen' = seen + length chunk in
    let later = limit_from seen' max_body_bytes chunks in
    if max_body_bytes <? seen'
    then record { passed_on = []; too_large = true }
    else passing chunk later

abbrev pub limit_body_size : List Chunk → ℕ → Limited
limit_body_size chunks max_body_bytes = limit_from 0 max_body_bytes chunks
