-- ===== src/Container/Detect.antt =====
-- `detect` over the checks of the kinds.
use quackiso.Base.{◌≡◌, refl, true, ◌++◌, some, Bytes, codes}
use quackiso.Container.{detect, zip}
use quackiso.Container.Zip.{is_zip}
use quackiso.Container.Tar.{is_tar}
use quackiso.Container.Tar.Header.{HeaderText, IsHeader, header_text, is_tar-written}

-- The kinds overlap: a TAR archive whose first member has a name that begins with `PK00` is a TAR
-- archive, and is detected as ZIP.
pub detect-overlap :
    (h : HeaderText) (more rest : Bytes)
    → IsHeader h
    → h.first ≡ b'P'
    → h.name ≡ codes "K00" ++ more
    → (is_tar (header_text h ++ rest) ≡ true) × (detect (header_text h ++ rest) ≡ some zip)
unfolding detect
detect-overlap h more rest v p k = (is_tar-written h v rest, rw zipped refl)
  where
    zipped : is_zip (header_text h ++ rest) ≡ true
    zipped = rw (p, k) refl
