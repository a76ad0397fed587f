-- ===== src/Examples/Pieces.antt =====
-- The chunker at concrete inputs.
use ultramem.Prelude.{codes, Text, ascii, solid, flatten, ◌≡◌, arith, none, true}
use ultramem.Chunker.Plain.{split_long, chunk_text}
use ultramem.Chunker.Turns.{chunk_transcript}
use ultramem.Chunker.Doc.{chunk_doc}
use ultramem.Chunker.Cover.{solid-split_long}
use ultramem.Chunker.Rejoin.{uncut, chunk_text-solid, chunk_transcript-solid}
use ultramem.Chunker.Within.{AllWithin}
use ultramem.Chunker.Bounds.{chunk_doc-AllWithin}

abbrev note : Text
note = codes "One two. Three four.\n\nAnExtraordinarilyLongWord. Five six."

solid-split_long_example : solid ascii (flatten (split_long ascii note 10)) ≡ solid ascii note
solid-split_long_example = solid-split_long ascii 10 (omega arith) note

chunk_text-solid_example : solid ascii (uncut 4 0 (chunk_text ascii note 10 4)) ≡ solid ascii note
chunk_text-solid_example = chunk_text-solid ascii 10 4 (omega arith) note

abbrev talk : Text
talk = codes "Ann: hello there\nBob: hi, how are you?\nAnn: fine."

chunk_transcript-solid_example :
    solid ascii (uncut 5 0 (chunk_transcript ascii talk 20 5)) ≡ solid ascii talk
chunk_transcript-solid_example = chunk_transcript-solid ascii 20 5 (omega arith) talk

chunk_doc-AllWithin_example : AllWithin 1402 (chunk_doc ascii talk (codes "meeting") none true)
chunk_doc-AllWithin_example = chunk_doc-AllWithin ascii talk (codes "meeting") none true
