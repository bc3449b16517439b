-- ===== src/Bytes/Chunks.antt =====
-- What a connection gives, cut into chunks.
use rmvl.Prelude.{[]}
use rmvl.Bytes.{Bytes, List, ◌<◌, ◌∷◌, length, ◌++◌}

-- What the chunks hold together.
abbrev pub contents : List Bytes → Bytes
contents [] = []
contents (c ∷ cs) = c ++ contents cs

abbrev pub IsNonempty : Bytes → Type 0
IsNonempty c = 0 < length c

-- One read of a connection: the next chunk, or an empty string once the connection is closed, and
-- what is left.
abbrev pub next_chunk : List Bytes → Bytes × List Bytes
next_chunk [] = ([], [])
next_chunk (chunk ∷ chunks) = (chunk, chunks)
