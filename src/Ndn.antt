-- ===== src/Ndn.antt =====
-- The part of ndn-cxx that the sources call: names, Interests and Data packets. It is not part of
-- the repository, so it is a parameter, with its documented behaviour as laws.
use crowdsensing.Common.{[], ℕ, ◌+◌, ◌≡◌, Bool, true, Option, some, Bytes}

pub record Ndn : Type 1 where
  pub Name : Type 0
  pub Interest : Type 0
  pub Data : Type 0
  -- `Name()`
  pub empty_name : Name
  pub of_uri : Bytes → Name
  pub to_uri : Name → Bytes
  -- `Name::append`
  pub append_component : Name → Bytes → Name
  -- `Name::appendVersion()`, with the time that it reads.
  pub append_version : Name → ℕ → Name
  pub append_segment : Name → ℕ → Name
  -- `Name::getPrefix(-1)`
  pub get_prefix : Name → Name
  pub size : Name → ℕ
  -- `name[-1].isSegment()`, `name[-1].isVersion()`, `name[-1].toSegment()`
  pub is_segment : Name → Bool
  pub is_version : Name → Bool
  pub to_segment : Name → ℕ
  pub get_name : Interest → Name
  -- `hasApplicationParameters()` and the value of `getApplicationParameters()`.
  pub parameters : Interest → Option Bytes
  pub matches_data : Interest → Data → Bool
  -- `new ndn::Data()`, then its setters.
  pub empty_data : Data
  pub set_name : Data → Name → Data
  pub set_freshness : Data → ℕ → Data
  pub set_content : Data → Bytes → Data
  -- `setFinalBlock(Name::Component::fromSegment(n))`
  pub set_final_block : Data → ℕ → Data
  -- `KeyChain::sign`
  pub sign : Data → Data
  pub data_name : Data → Name
  pub content : Data → Bytes
  pub final_block : Data → Option ℕ
  -- The content that the packet had when its signature was made, `none` without a signature.
  pub signed_content : Data → Option Bytes
  -- The value of `Block(AppPrivateBlock1, buffer)`.
  pub block_value : Bytes → Bytes

-- A getter returns what its setter stored, the other setters and the signature leave it alone, a
-- setter leaves the signature alone, and a segment component is read back.
pub record IsNdn (n : Ndn) : Type 0 where
  pub data_name-set_name : (d : n.Data) (m : n.Name) → n.data_name (n.set_name d m) ≡ m
  pub data_name-set_freshness :
      (d : n.Data) (t : ℕ) → n.data_name (n.set_freshness d t) ≡ n.data_name d
  pub data_name-set_content :
      (d : n.Data) (c : Bytes) → n.data_name (n.set_content d c) ≡ n.data_name d
  pub data_name-set_final_block :
      (d : n.Data) (k : ℕ) → n.data_name (n.set_final_block d k) ≡ n.data_name d
  pub data_name-sign : (d : n.Data) → n.data_name (n.sign d) ≡ n.data_name d
  pub content-set_content : (d : n.Data) (c : Bytes) → n.content (n.set_content d c) ≡ c
  pub content-set_final_block :
      (d : n.Data) (k : ℕ) → n.content (n.set_final_block d k) ≡ n.content d
  pub content-sign : (d : n.Data) → n.content (n.sign d) ≡ n.content d
  pub content-empty_data : n.content n.empty_data ≡ []
  pub content-set_name : (d : n.Data) (m : n.Name) → n.content (n.set_name d m) ≡ n.content d
  pub content-set_freshness : (d : n.Data) (t : ℕ) → n.content (n.set_freshness d t) ≡ n.content d
  pub signed_content-sign : (d : n.Data) → n.signed_content (n.sign d) ≡ some (n.content d)
  pub signed_content-set_content :
      (d : n.Data) (c : Bytes) → n.signed_content (n.set_content d c) ≡ n.signed_content d
  pub final_block-set_final_block :
      (d : n.Data) (k : ℕ) → n.final_block (n.set_final_block d k) ≡ some k
  pub final_block-sign : (d : n.Data) → n.final_block (n.sign d) ≡ n.final_block d
  pub size-append_segment : (m : n.Name) (k : ℕ) → n.size (n.append_segment m k) ≡ n.size m + 1
  pub is_segment-append_segment : (m : n.Name) (k : ℕ) → n.is_segment (n.append_segment m k) ≡ true
  pub to_segment-append_segment : (m : n.Name) (k : ℕ) → n.to_segment (n.append_segment m k) ≡ k
  pub block_value_lem : (s : Bytes) → n.block_value s ≡ s
