-- ===== src/Examples/Containers.antt =====
-- Containers of src/container.rs: small files of each kind.
use quackiso.Base.{
  suc, List, ◌≡◌, refl, [], ◌∷◌, ◌++◌, Bytes, codes, some, true, inl, inr, replicate, arith, ◌+◌,
  ◌≤◌, ◌&&◌, length, take, drop, ltb,
}
use quackiso.Text.{starts_with}
use quackiso.Container.{detect, zip}
use quackiso.Container.Tar.{is_tar, tar_octal, tar_type_flag}
use quackiso.Container.Tar.Written.{OctalText, octal_text, octal_from}
use quackiso.Container.Tar.Checksum.{bytes_sum}
use quackiso.Container.Tar.Header.{
  HeaderText, IsHeader, header_text, front, back, is_tar-written, is_tar-sum,
}
use quackiso.Container.Der.{
  tagged, tagged_range, der_range, der_length, big_endian, der_content_info, cms_arc,
}
use quackiso.Container.Der.Written.{
  length_octets, oid_element, tagged-written, der_content_info-written,
}
use quackiso.Container.Der.Bounds.{tagged_range-bounds}
use quackiso.Container.Pgp.{pgp_packets, packet_loop}
use quackiso.Container.Pgp.Written.{packet_length}
use quackiso.Container.Pgp.Chain.{KeyPacket, keys_text, pgp_packets-written}
use quackiso.Container.Pgp.Bounds.{pgp_packets_fuel}
use quackiso.Container.Xml.{root_loop, root_start_tag}
use quackiso.Container.Xml.Prolog.{Misc, comment, instruction, subset, prolog_text}
use quackiso.Container.Ebics.{attribute_loop, has_ebics_namespace, is_ebics}
use quackiso.Container.Ebics.Attributes.{Attribute}
use quackiso.Container.Ebics.Written.{Element, tag_text}
use quackiso.Container.Ebics.Root.{prefixed, any_declares, is_ebics-written}
use quackiso.Container.Ebics.Ends.{is_ebics_fuel}
use quackiso.Container.Detect.{detect-overlap}

-- A member `PK00` of 5 bytes, with the checksum 03140 of its header.
abbrev size_field : OctalText
size_field = record { spaces = 2; first = b'0'; digits = codes "00000005"; padding = 0 ∷ [] }

abbrev sum_field : OctalText
sum_field = record { spaces = 0; first = b'0'; digits = codes "03140"; padding = 0 ∷ 32 ∷ [] }

abbrev member : HeaderText
member = record {
  first = b'P';
  name = codes "K00" ++ replicate 120 0;
  file_size = size_field;
  times = replicate 12 b'0';
  sum = sum_field;
  flag = b'0';
  tail = replicate 355 0;
}

member-IsHeader : IsHeader member
unfolding bytes_sum octal_from tar_type_flag
member-IsHeader = record {
  named = omega arith;
  name_length = refl;
  size_length = refl;
  times_length = refl;
  sum_length = refl;
  tail_length = refl;
  size_octal = record { octal = omega arith; padded = (inl refl, tt); small = omega arith };
  sum_octal = record {
    octal = omega arith;
    padded = (inl refl, (inr refl, tt));
    small = omega arith;
  };
  flagged = refl;
  summed = refl;
}

is_tar-written_example : is_tar (header_text member ++ codes "hello") ≡ true
is_tar-written_example = is_tar-written member member-IsHeader (codes "hello")

detect-overlap_example :
    (is_tar (header_text member ++ codes "hello") ≡ true)
    × (detect (header_text member ++ codes "hello") ≡ some zip)
detect-overlap_example =
    detect-overlap member (replicate 120 0) (codes "hello") member-IsHeader refl refl

is_tar-sum_example :
    tar_octal (octal_text sum_field)
    ≡ some (bytes_sum (front member) + 256 + bytes_sum (back member))
is_tar-sum_example =
    is_tar-sum (front member) (octal_text sum_field) (back member) refl refl refl [] (omega arith)
      (omega arith) (omega arith) (is_tar-written member member-IsHeader [])

-- An OCTET STRING of 300 bytes of which five are there.
tagged-written_example :
    tagged (4 ∷ (length_octets 300 ++ codes "hello")) 4
    ≡ some (take 300 (codes "hello"), drop 300 (codes "hello"))
tagged-written_example = tagged-written 4 300 (codes "hello") (omega arith)

abbrev long_form : Bytes
long_form = 0x30 ∷ 0x82 ∷ 0x01 ∷ 0x2c ∷ 7 ∷ 8 ∷ []

read_short : tagged long_form 0x30 ≡ some (7 ∷ 8 ∷ [], [])
unfolding tagged tagged_range der_length der_range big_endian
read_short = refl

long_range : tagged_range long_form 0x30 ≡ some (4, 6)
unfolding tagged_range der_length der_range big_endian
long_range = refl

tagged_range-bounds_example : (2 ≤ 4) × (4 ≤ 6) × (4 ≤ 6) × (6 ≤ length long_form)
tagged_range-bounds_example = tagged_range-bounds long_form 0x30 4 6 long_range

-- signedData, 1.2.840.113549.1.7.2
abbrev signed_data : Bytes
signed_data = cms_arc ++ 2 ∷ []

der_content_info-written_example :
    der_content_info (0x30 ∷ (length_octets 5000 ++ (oid_element signed_data ++ codes "...")))
    ≡ (ltb (length cms_arc) (length signed_data) && starts_with cms_arc signed_data)
unfolding length_octets
der_content_info-written_example =
    der_content_info-written 5000 signed_data (codes "...") (omega arith) (omega arith)
      (omega arith)

abbrev session_key : KeyPacket
session_key = record { tag = 1; version = 3; rest = replicate 20 0xaa }

pgp_packets-written_example :
    pgp_packets
      (keys_text (session_key ∷ session_key ∷ []) ++ (210 ∷ (packet_length 70000 ++ (1 ∷ 9 ∷ []))))
    ≡ true
unfolding packet_length
pgp_packets-written_example =
    pgp_packets-written (session_key ∷ session_key ∷ []) 70000 1 (9 ∷ [])
      (
        record { versioned = inl (refl, inl refl); short = omega arith },
        (record { versioned = inl (refl, inl refl); short = omega arith }, tt),
      )
      (inl refl) (omega arith) (omega arith)

abbrev encrypted : Bytes
encrypted = 210 ∷ 2 ∷ 1 ∷ 9 ∷ []

pgp_packets_fuel_example :
    packet_loop (suc (length encrypted)) encrypted 0 0 ≡ some (pgp_packets encrypted)
pgp_packets_fuel_example = pgp_packets_fuel encrypted

is_ebics_fuel_example :
    (root_loop (suc (length (codes "<!-- a --><b/>"))) (codes "<!-- a --><b/>")
      ≡ some (root_start_tag (codes "<!-- a --><b/>")))
    × (attribute_loop (suc (length (codes " a=\"b\""))) (codes " a=\"b\"")
        ≡ some (has_ebics_namespace (codes " a=\"b\"")))
is_ebics_fuel_example = is_ebics_fuel (codes "<!-- a --><b/>") (codes " a=\"b\"")

-- The root of an EBICS request, behind a declaration, a comment and a doctype.
abbrev version : Attribute
version = record { first = b'V'; name = codes "ersion"; quote = 39; value = codes "H005" }

abbrev namespace : Attribute
namespace = record {
  first = b'x';
  name = codes "mlns";
  quote = b'"';
  value = codes "urn:org:ebics:H005";
}

abbrev request : Element
request = record {
  first = b'e';
  name = codes ":ebicsRequest";
  attributes = version ∷ namespace ∷ [];
  tail = 32 ∷ [];
}

abbrev prolog : List Misc
prolog =
    instruction [] (codes "xml version='1.0'")
    ∷ comment (10 ∷ []) (codes " a < b ")
    ∷ subset [] (codes "OCTYPE e ") (codes "<!ENTITY a 'b'>") []
    ∷ []

is_ebics-written_example :
    is_ebics (prolog_text prolog ((10 ∷ []) ++ (b'<' ∷ (tag_text request ++ (b'>' ∷ codes "x")))))
    ≡ (starts_with (codes "ebics") (codes "ebicsRequest")
        && any_declares (version ∷ namespace ∷ []))
is_ebics-written_example =
    is_ebics-written prolog (10 ∷ []) request (prefixed (codes "e") (codes "ebicsRequest"))
      (codes "x") (omega arith) (omega arith)
      (record {
        named = omega arith;
        opens = omega arith;
        listed = (
          record { named = omega arith; quoted = inr refl; closed = omega arith },
          (record { named = omega arith; quoted = inl refl; closed = omega arith }, tt),
        );
        closed = refl;
      })
      refl (omega arith)

it_declares : any_declares (version ∷ namespace ∷ []) ≡ true
it_declares = refl
