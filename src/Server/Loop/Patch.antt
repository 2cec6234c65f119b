-- ===== src/Server/Loop/Patch.antt =====
-- What the event loop of src/server.rs means to do: the blocks that it receives, put into the file.
use deltasync.Base.{ℕ, ◌≡◌, refl, sym, ap, ◌∙◌, List, [], ◌∷◌, ◌++◌, append_assoc}
use deltasync.Common.ReadBlock.{ReadBlock}
use deltasync.Common.ReadBlock.Payload.{block_frame}
use deltasync.Common.ReadBlock.Progress.{IsBlock}
use deltasync.FileSystem.SeekFile.{overwrite}

abbrev pub Blocks : Type 0
Blocks = List (ℕ × List ℕ)

-- The blocks on the wire.
unfoldable pub frames : Blocks → List ℕ
frames [] = []
frames ((offset, block) ∷ bs) = block_frame offset block ++ frames bs

-- The file behind all the blocks, in their order.
unfoldable pub patch : Blocks → List ℕ → List ℕ
patch [] content = content
patch ((offset, block) ∷ bs) content = patch bs (overwrite content offset block)

abbrev pub AreBlocks : ReadBlock → Blocks → Type 0
AreBlocks me [] = Unit
AreBlocks me ((offset, block) ∷ bs) = IsBlock me offset block × AreBlocks me bs

pub frames-append : (xs ys : Blocks) → frames (xs ++ ys) ≡ frames xs ++ frames ys
unfolding frames
frames-append [] ys = refl
frames-append ((o, b) ∷ xs) ys =
    ap (◌++◌ (block_frame o b)) (frames-append xs ys)
    ∙ sym (append_assoc (block_frame o b) (frames xs) (frames ys))

pub patch-append :
    (xs ys : Blocks) (content : List ℕ) → patch (xs ++ ys) content ≡ patch ys (patch xs content)
unfolding patch
patch-append [] ys content = refl
patch-append ((o, b) ∷ xs) ys content = patch-append xs ys (overwrite content o b)

pub AreBlocks-append :
    (me : ReadBlock) (xs : Blocks) (o : ℕ) (b : List ℕ)
    → AreBlocks me xs
    → IsBlock me o b
    → AreBlocks me (xs ++ (o, b) ∷ [])
AreBlocks-append me [] o b h k = (k, tt)
AreBlocks-append me ((o', b') ∷ xs) o b h k = (h.0, AreBlocks-append me xs o b h.1 k)
