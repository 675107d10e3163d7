-- ===== src/Patch/Apply/Files.antt =====
-- Reading a workspace after a write or a removal.
use generic_coding_agent.Prelude.{◌≡◌, refl, none, some, [], ◌∷◌, arith, if◌then◌else◌}
use generic_coding_agent.Patch.Text.{Text, text_eq}
use generic_coding_agent.Patch.Text.Equality.{text_eq-eq, text_eq_refl}
use generic_coding_agent.Patch.Apply.{Files, read_file, write_file, remove_file}

pub read_file-write_file :
    (path new other : Text) (files : Files)
    → read_file other (write_file path new files)
      ≡ (if text_eq path other then some new else read_file other files)
unfolding read_file write_file
read_file-write_file path new other [] = refl
read_file-write_file path new other ((p, content) ∷ files) = ground (
  arith,
  text_eq-eq p path,
  text_eq-eq path other,
  text_eq-eq p other,
  text_eq_refl path,
  text_eq_refl other,
  read_file-write_file path new other files,
)

pub read_file-remove_file :
    (path other : Text) (files : Files)
    → read_file other (remove_file path files)
      ≡ (if text_eq path other then none else read_file other files)
unfolding read_file remove_file
read_file-remove_file path other [] = ground arith
read_file-remove_file path other ((p, content) ∷ files) = ground (
  arith,
  text_eq-eq p path,
  text_eq-eq path other,
  text_eq-eq p other,
  text_eq_refl path,
  text_eq_refl other,
  read_file-remove_file path other files,
)
