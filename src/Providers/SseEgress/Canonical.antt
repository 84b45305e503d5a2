-- ===== src/Providers/SseEgress/Canonical.antt =====
-- What the canonical payloads of crates/godwit-providers/src/streaming.rs are read back as.
use godwit.Base.{String, Option, none, some, List, if◌then◌else◌, ◌≡◌, refl}
use godwit.Base.Int.{ℤ, wrap_i32}
use godwit.Providers.Wire.{Wire, field}
use godwit.Providers.Streaming.{build_sse_delta, build_sse_finish, build_sse_error}
use godwit.Providers.SseEgress.{delta, tool_call, finish, error, parse_canonical_event, typed_event}

module _ (w : Wire) where
  open w use {
    T, J, opens_brace, of_fields, parse-render, get-of_fields, as_str-of_text, as_i64-of_int,
    is_lit-lit,
  }

  pub parse_canonical-fields :
      (fs : List (String × J)) (kind : String)
      → field "type" fs ≡ some (w.of_text (w.lit kind))
      → parse_canonical_event w (w.render (of_fields fs))
        ≡ typed_event w (of_fields fs) (some (w.lit kind))
  unfolding parse_canonical_event
  parse_canonical-fields fs kind h = rw (parse-render, get-of_fields, h) (rw as_str-of_text)

  pub parse_canonical_event-build_sse_delta :
      (t : T)
      → parse_canonical_event w (build_sse_delta w t)
        ≡ (if opens_brace t then tool_call t else delta t)
  unfolding build_sse_delta
  parse_canonical_event-build_sse_delta t =
      rw (parse_canonical-fields _ "delta" refl) (simp (is_lit-lit, get-of_fields, as_str-of_text))

  parse_canonical_event-build_sse_error :
      (t : T) → parse_canonical_event w (build_sse_error w t) ≡ error t
  unfolding build_sse_error
  parse_canonical_event-build_sse_error t =
      rw (parse_canonical-fields _ "error" refl) (simp (is_lit-lit, get-of_fields, as_str-of_text))

  parse_canonical_event-build_sse_finish :
      (p c : ℤ) (reason : Option T)
      → parse_canonical_event w (build_sse_finish w p c reason)
        ≡ finish (wrap_i32 p) (wrap_i32 c) reason
  unfolding build_sse_finish
  parse_canonical_event-build_sse_finish p c none =
      rw (parse_canonical-fields _ "finish" refl) (simp (is_lit-lit, get-of_fields, as_i64-of_int))
  parse_canonical_event-build_sse_finish p c (some r) =
      rw (parse_canonical-fields _ "finish" refl)
        (simp (is_lit-lit, get-of_fields, as_str-of_text, as_i64-of_int))

  -- The payloads that the adapters build are read back as the events that they stand for, with their
  -- tokens as 32-bit numbers; but a text that begins with a brace is read back as a tool call.
  pub canonical_read_back :
      (t message : T) (p c : ℤ) (reason : Option T)
      → (parse_canonical_event w (build_sse_delta w t)
          ≡ (if opens_brace t then tool_call t else delta t))
        × (parse_canonical_event w (build_sse_finish w p c reason)
            ≡ finish (wrap_i32 p) (wrap_i32 c) reason)
        × (parse_canonical_event w (build_sse_error w message) ≡ error message)
  canonical_read_back t message p c reason = (
    parse_canonical_event-build_sse_delta t,
    parse_canonical_event-build_sse_finish p c reason,
    parse_canonical_event-build_sse_error message,
  )
