-- ===== src/Compression/Tests.antt =====
-- Examples of the split of a prompt (internal/compression/codeblocks.go).
use onmi_routers.Base.{ℕ, ◌≡◌, refl, List, [], ◌∷◌, ◌++◌, length, All}
use onmi_routers.Compression.{
  think_open_tag, think_close_tag, split_code_blocks, split_think_blocks, join_segments,
}
use onmi_routers.Compression.Join.{join-split}
use onmi_routers.Compression.Frozen.{IsFrozen, split_think_blocks-IsFrozen}

-- Prose, a reasoning trace, and prose with a span of code and a fenced line.
abbrev prompt : List ℕ
prompt =
    b'a' ∷ think_open_tag
    ++ (b'b' ∷ think_close_tag)
    ++ (b'c' ∷ b'`' ∷ b'd' ∷ b'`' ∷ 10 ∷ b'`' ∷ b'`' ∷ b'`' ∷ 10 ∷ b'e' ∷ [])

join-split_example : join_segments (split_code_blocks prompt) ≡ prompt
join-split_example = join-split prompt

split_think_blocks-IsFrozen_example : All IsFrozen (split_think_blocks prompt)
split_think_blocks-IsFrozen_example = split_think_blocks-IsFrozen prompt

-- The number of segments of the example.
segments : length (split_code_blocks prompt) ≡ 7
unfolding split_code_blocks split_think_blocks onmi_routers.Compression.cut
    onmi_routers.Compression.has_prefix onmi_routers.Compression.trim_left
    onmi_routers.Compression.trim_right onmi_routers.Base.Text.is_space
segments = refl
