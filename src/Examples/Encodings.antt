-- ===== src/Examples/Encodings.antt =====
-- The declaration of a file in Windows-1251.
use quackiso.Base.{◌≡◌, refl, ◌++◌, [], some, codes, arith}
use quackiso.Encoding.{declaration_label}
use quackiso.Encoding.Declaration.{Written, text_of, IsDeclaration, declaration_label-written}

abbrev windows : Written
windows = record {
  front = codes " version='1.0' ";
  gap = [];
  gap' = codes " ";
  quote = b'"';
  label = codes "cp1251";
  more = [];
}

windows-IsDeclaration : IsDeclaration windows
unfolding quackiso.Text.find
windows-IsDeclaration = record {
  first_word = refl;
  not_closed = refl;
  space = tt;
  space' = (refl, tt);
  quoted = refl;
  unquoted = omega arith;
  fits = omega arith;
}

declaration_label-written_example :
    declaration_label (text_of windows ++ (codes "?>" ++ codes "<a encoding='utf-8'/>"))
    ≡ some (codes "cp1251")
declaration_label-written_example =
    declaration_label-written windows (codes "<a encoding='utf-8'/>") windows-IsDeclaration
