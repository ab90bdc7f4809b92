-- ===== src/Reference/Ndn.antt =====
-- Names as a text in percent codes and the components that were appended, packets as records.
use crowdsensing.Common.{
  ℕ, refl, Bool, true, false, List, [], ◌∷◌, Option, none, some, Bytes, length, arith,
}
use crowdsensing.Uri.{percent_encode}
use crowdsensing.Ndn.{Ndn, IsNdn}

pub data Component : Type 0 where
  generic : Bytes → Component
  version : ℕ → Component
  segment : ℕ → Component

-- The last component comes first.
pub record NameValue : Type 0 where
  pub base : Bytes
  pub components : List Component

pub record InterestValue : Type 0 where
  pub name : NameValue
  pub parameters : Option Bytes

pub record DataValue : Type 0 where
  pub name : NameValue
  pub freshness : ℕ
  pub content : Bytes
  pub final_block : Option ℕ
  pub signed_content : Option Bytes

unfoldable pub is_segment : List Component → Bool
is_segment (segment k ∷ cs) = true
is_segment _ = false

unfoldable pub is_version : List Component → Bool
is_version (version k ∷ cs) = true
is_version _ = false

unfoldable pub to_segment : List Component → ℕ
to_segment (segment k ∷ cs) = k
to_segment _ = 0

unfoldable pub without_last : List Component → List Component
without_last [] = []
without_last (c ∷ cs) = cs

abbrev pub ndn : Ndn
ndn = record {
  Name = NameValue;
  Interest = InterestValue;
  Data = DataValue;
  empty_name = record { base = []; components = [] };
  of_uri = λ s. record { base = percent_encode s; components = [] };
  to_uri = λ n. n.base;
  append_component = λ n c. record n { components = generic c ∷ n.components };
  append_version = λ n t. record n { components = version t ∷ n.components };
  append_segment = λ n k. record n { components = segment k ∷ n.components };
  get_prefix = λ n. record n { components = without_last n.components };
  size = λ n. length n.components;
  is_segment = λ n. is_segment n.components;
  is_version = λ n. is_version n.components;
  to_segment = λ n. to_segment n.components;
  get_name = λ i. i.name;
  parameters = λ i. i.parameters;
  matches_data = λ i d. true;
  empty_data = record {
    name = record { base = []; components = [] };
    freshness = 0;
    content = [];
    final_block = none;
    signed_content = none;
  };
  set_name = λ d n. record d { name = n };
  set_freshness = λ d t. record d { freshness = t };
  set_content = λ d c. record d { content = c };
  set_final_block = λ d k. record d { final_block = some k };
  sign = λ d. record d { signed_content = some d.content };
  data_name = λ d. d.name;
  content = λ d. d.content;
  final_block = λ d. d.final_block;
  signed_content = λ d. d.signed_content;
  block_value = λ s. s;
}

pub ndn-IsNdn : IsNdn ndn
unfolding is_segment is_version to_segment without_last
ndn-IsNdn = record {
  data_name-set_name = λ d m. refl;
  data_name-set_freshness = λ d t. refl;
  data_name-set_content = λ d c. refl;
  data_name-set_final_block = λ d k. refl;
  data_name-sign = λ d. refl;
  content-set_content = λ d c. refl;
  content-set_final_block = λ d k. refl;
  content-sign = λ d. refl;
  content-empty_data = refl;
  content-set_name = λ d m. refl;
  content-set_freshness = λ d t. refl;
  signed_content-sign = λ d. refl;
  signed_content-set_content = λ d c. refl;
  final_block-set_final_block = λ d k. refl;
  final_block-sign = λ d. refl;
  size-append_segment = λ m k. omega arith;
  is_segment-append_segment = λ m k. refl;
  to_segment-append_segment = λ m k. refl;
  block_value_lem = λ s. refl;
}
