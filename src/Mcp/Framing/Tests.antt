-- ===== src/Mcp/Framing/Tests.antt =====
-- The tests of jsonrpc.rs on framing, with the bytes of a frame for its message, and instances of
-- the theorems.
use godwit.Base.{ℕ, ◌≡◌, refl, List, [], ◌∷◌, ◌++◌, nat_key}
use godwit.Mcp.Framing.{
  FrameReader, push, read_lines, next_line_offset, trim_buf, trim_start, trim_end,
}
use godwit.Mcp.Framing.Chunks.{push-append}

abbrev reader : FrameReader
reader = record { buffer = b'{' ∷ [] }

abbrev bytes_of : List ℕ → List ℕ
bytes_of line = line

-- The rest of one message, a blank line, and the start of another message.
abbrev chunk : List ℕ
chunk = b'}' ∷ b'\r' ∷ b'\n' ∷ b'\n' ∷ b'{' ∷ []

blank_line_is_a_frame :
    push bytes_of reader chunk
    ≡ (record { buffer = b'{' ∷ [] }, (b'{' ∷ b'}' ∷ b'\r' ∷ b'\n' ∷ []) ∷ (b'\n' ∷ []) ∷ [])
unfolding push read_lines next_line_offset trim_buf trim_start trim_end
blank_line_is_a_frame = refl

push-append_example : push bytes_of reader (chunk ++ chunk) ≡ (
    let (r₁, frames₁) = push bytes_of reader chunk in
    let (r₂, frames₂) = push bytes_of r₁ chunk in (r₂, frames₁ ++ frames₂))
push-append_example = push-append bytes_of reader chunk chunk
