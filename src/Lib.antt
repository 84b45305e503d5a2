-- ===== src/Lib.antt =====
-- Godwit, a gateway in front of providers of language models: what keeps its core correct.
--
-- A request passes the middlewares of crates/godwit-api/src/middleware.rs (key, CSRF, model scope) and
-- the rate limiter; the router finds the model, and the load balancer one of several of that name; the
-- proxy sends the request to the adapter of its provider, retries, falls back to other models and runs
-- tools in the agentic loop. A stream of a provider is read into canonical events, which a translator
-- writes in the protocol of the client. Guardrails mask a request and unmask its response; batches run
-- many requests, and alerts go out when a budget is used up. Limiters, breakers and balancers are
-- shared by all requests; the prompt cache and the MCP reader belong to a provider and to a tool
-- server.
--
-- Which file models what:
--   Base and below: lists, integers, maps, results and texts that the other modules share.
--   Core/Error, Core/Json, Providers/Adapter: the errors of crates/godwit-core/src/lib.rs, the errors
--     and usage reports of crates/godwit-providers/src/adapter.rs, and interfaces for serde_json and the
--     HTTP client.
--   Core/Chat, Core/Capability: the messages and capabilities of crates/godwit-core/src/lib.rs.
--   Core/PiiMasking: crates/godwit-core/src/pii_masking.rs.
--   Core/Guardrails: crates/godwit-core/src/guardrails.rs, over Core/PiiMasking.
--   Core/Alerting: crates/godwit-core/src/alerting.rs.
--   RateLimit/Bucket: `TokenBucket`; RateLimit/Limiter: `RateLimiter` of
--     crates/godwit-api/src/rate_limit.rs, `check_bucket` and the two passes of `check_and_consume`.
--   RateLimit/Login: `LoginLimiter` of crates/godwit-api/src/login_rate_limit.rs.
--   Resilience/CircuitBreaker: `CircuitBreaker`, and in Registry `CircuitBreakerRegistry`, of
--     crates/godwit-api/src/circuit_breaker.rs.
--   Resilience/Retry: `with_retry` of crates/godwit-api/src/resilience.rs.
--   Resilience/LoadBalancer: crates/godwit-api/src/load_balancer.rs.
--   Resilience/Fallback: crates/godwit-api/src/fallback.rs.
--   Resilience/ProviderChain: crates/godwit-api/src/moderation_fallback.rs and rerank_fallback.rs.
--   Providers/PromptCache: crates/godwit-providers/src/prompt_cache.rs.
--   Providers/Wire: the interface for the JSON of events and frames; Providers/Usage:
--     crates/godwit-providers/src/usage.rs.
--   Providers/Streaming, Providers/SseLines: crates/godwit-providers/src/streaming.rs, and the reading
--     of chunks in `chat_stream` of crates/godwit-providers/src/openai.rs, with `from_utf8_lossy` in
--     Base/Utf8.
--   Providers/SseEgress: crates/godwit-providers/src/sse_egress.rs; its translators are in OpenAiStream
--     and AnthropicStream.
--   Providers/Anthropic: crates/godwit-providers/src/anthropic.rs, in Request the translation of a chat
--     and of its answer, in Stream that of the events.
--   Mcp/Framing: `FrameReader` of crates/godwit-mcp/src/jsonrpc.rs.
--   Mcp/Registry: `McpRegistry` of crates/godwit-mcp/src/registry.rs, with tool.rs; Mcp/Server: `McpServer`
--     of server.rs; Mcp/Client: `McpClient` of client.rs.
--   Api/Budget: the budgets and the token estimate of crates/godwit-api/src/rate_limit.rs.
--   Api/BatchParser: crates/godwit-api/src/batch_parser.rs.
--   Api/BatchProcessor: crates/godwit-api/src/batch_processor.rs and batch_webhook.rs.
--   Api/ModelRouter: crates/godwit-api/src/model_router.rs, over Resilience/LoadBalancer.
--   Api/ToolCalls: crates/godwit-api/src/proxy_streaming.rs.
--   Api/Responses: crates/godwit-api/src/error.rs.
--   Api/AgenticLoop: crates/godwit-api/src/agentic_loop.rs, over Resilience/Retry.
--   Api/Middleware: crates/godwit-api/src/middleware.rs, with `extract_prefix` of
--     crates/godwit-auth/src/api_keys.rs and the cache of crates/godwit-cache/src/lib.rs.
--
-- Conventions. A method on shared state is a function from the state to the state and its answer, and
-- each is one step; where a lock is not held throughout, the steps between are separate functions
-- (RateLimit/Limiter/Overlap). A reading of the clock is an argument or a function of the number of
-- the reading, in nanoseconds. A token of a bucket is 60,000,000,000 units, so that a refill is exact
-- where the code uses 64-bit floats; the seconds until an amount fits are divided and rounded as 64-bit
-- floats are (Base/Float). Machine integers wrap where the code's do. Ids are numbers.
-- A panic is `none`. A text is a list of bytes in Core/PiiMasking, whose positions are bytes, a list of
-- code points in Providers/SseLines, and the abstract text of `Wire` where only its JSON matters.
-- Logging is left out.
--
-- Fuel. `with_retry`, the agentic loop and the chains recurse on the rounds that the code's `for` has;
-- the loop of the frame reader has as much fuel as there are bytes in its buffer, which is enough
-- since every round takes one away (Mcp/Framing/Lines, `read_lines-split`). A quotient of floats is
-- doubled 120 times at most, which is enough down to 2^-68 (Base/Float, `normal_reaches`).
--
-- Not modelled: SQL, HTTP and process handling, the handlers of the proxy and of batches, the
-- translation of the dialects of the providers but Anthropic, JWT and OIDC,
-- the admin API, and the applications in TypeScript.
pub mod Base
pub mod RateLimit
pub mod Core
pub mod Resilience
pub mod Providers
pub mod Mcp
pub mod Api
