-- ===== src/Examples/Stacks.antt =====
-- The initial stack of `ls` with the environment PATH=/usr/local/bin:/bin.
use oryx_hurd.Base.{
  ℕ, ◌+◌, ◌*◌, ◌%◌, ◌≤◌, ◌<◌, ◌≡◌, refl, List, [], ◌∷◌, length, get_or, arith, replicate,
}
use oryx_hurd.Stack.{
  Loaded, Ids, Image, nwords, block_size, stack_image, guest_addr, push_bytes, push_strings,
}
use oryx_hurd.Stack.Layout.{vector_overlaps, first_env_cut}

abbrev program : Loaded
program = record {
  entry = 0x8049000;
  phdr = 0x8048034;
  phentsize = 32;
  phnum = 9;
  brk = 0x80a0000;
  base = 0;
  interp_base = 0;
  interp = [];
}

abbrev user : Ids
user = record { uid = 0; euid = 0; gid = 0; egid = 0 }

abbrev ls : List ℕ
ls = b'l' ∷ b's' ∷ []

-- 24 letters for the text of the variable
abbrev variable : List ℕ
variable = replicate 24 b'x'

abbrev image : Image
image = stack_image (ls ∷ []) (variable ∷ []) program user (replicate 16 7)

image_soff : image.soff ≡ 65487
unfolding stack_image push_strings push_bytes
image_soff = refl

image_fits : nwords 1 1 * 4 ≤ image.soff
image_fits = omega (arith, image_soff)

image_small : image.soff ≤ block_size
image_small = omega (arith, image_soff)

vector_overlaps_example :
    (image.voff % 16 ≡ 0)
    × (image.soff + 9 ≤ image.voff + 4 * length image.words)
    × (image.voff + 4 * length image.words ≤ image.soff + 24)
vector_overlaps_example =
    vector_overlaps (ls ∷ []) (variable ∷ []) program user (replicate 16 7) image_fits image_small

first_env_cut_example :
    (n : ℕ) × (1 ≤ n)
    × (n ≤ 16)
    × (get_or image.envp 0 0 ≡ guest_addr image.soff)
    × ((j : ℕ) → j < 8 → image.blk (image.soff + n + j) ≡ 0)
first_env_cut_example =
    first_env_cut variable (ls ∷ []) [] program user (replicate 16 7) image_fits image_small
