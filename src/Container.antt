-- ===== src/Container.antt =====
-- src/container.rs: which transport container a prefix of a file is. Kinds are told apart by the
-- structure of their first bytes; no member is read.
pub mod Scan
pub mod Zip
pub mod Tar
pub mod Der
pub mod Pgp
pub mod Xml
pub mod Ebics
pub mod Detect
use quackiso.Base.{Bool, ◌||◌, Option, none, some, String, Bytes, codes, if◌then◌else◌}
use quackiso.Container.Scan.{document_starts_with, contains_ascii_case, mime_headers}
use quackiso.Container.Zip.{is_zip}
use quackiso.Container.Tar.{is_tar}
use quackiso.Container.Der.{der_content_info}
use quackiso.Container.Pgp.{is_pgp}
use quackiso.Container.Ebics.{is_ebics}

pub data ContainerKind : Type 0 where
  zip : ContainerKind
  tar : ContainerKind
  pkcs7 : ContainerKind
  pgp : ContainerKind
  ebics : ContainerKind

unfoldable pub reason : ContainerKind → String
reason zip = "ZIP archive: extract a member before reading"
reason tar = "TAR archive: extract a member before reading"
reason pkcs7 = "PKCS#7 envelope: unwrap, decrypt, or verify it before reading"
reason pgp = "PGP envelope: decrypt it before reading"
reason ebics = "EBICS transport envelope: process it with an EBICS client first"

unfoldable pub is_pkcs7 : Bytes → Bool
unfolding document_starts_with contains_ascii_case mime_headers der_content_info
is_pkcs7 prefix =
    document_starts_with prefix (codes "-----BEGIN PKCS7-----")
    || (document_starts_with prefix (codes "-----BEGIN CMS-----")
        || (contains_ascii_case (mime_headers prefix) (codes "application/pkcs7-mime")
            || der_content_info prefix))

unfoldable pub detect : Bytes → Option ContainerKind
unfolding is_zip is_tar is_pkcs7 is_pgp is_ebics
detect prefix =
    if is_zip prefix
    then some zip
    else if is_tar prefix
    then some tar
    else if is_pkcs7 prefix
    then some pkcs7
    else if is_pgp prefix
    then some pgp
    else if is_ebics prefix
    then some ebics
    else none
