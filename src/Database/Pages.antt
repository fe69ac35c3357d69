-- ===== src/Database/Pages.antt =====
-- Pages and their index: crates/agilang-database-storage/src/lib.rs and
-- crates/agilang-database-index/src/lib.rs. Keys of an index are a type with an order.
use agilang_native.Base.{
  ℕ, zero, suc, ◌≡◌, ◌≢◌, refl, not, Option, none, some, String, List, [], ◌∷◌, ◌++◌, arith, Result,
  ok, err, fail_if, or_err, length, get_elem?, get_elem?-append_left, get_elem?-append_last, nat_eq,
  if◌then◌else◌, ◌>>◌, ap, lt-length_of_get_elem?, Option-cases, inl, inr,
}
use agilang_native.Base.Key.{Key, ◌==◌, list_key, list_beq}
use agilang_native.Base.Text.{codes}
use agilang_native.Base.Map.{Map, lookup, contains, insert, lookup-insert_self, lookup-insert_ne}

abbrev default_page_size : ℕ
default_page_size = 4096

pub record DatabaseHeader : Type 0 where
  pub magic : List ℕ
  pub format_version : ℕ
  pub page_size : ℕ
  pub database_id : List ℕ
  pub created_at : ℕ
  pub checkpoint_lsn : ℕ
  pub checksum : ℕ

pub data PageFault : Type 0 where
  invalid_magic : PageFault
  unsupported_version : ℕ → PageFault
  out_of_bounds : ℕ → PageFault

-- `[b; n]`
unfoldable pub repeated : ℕ → ℕ → List ℕ
repeated b zero = []
repeated b (suc n) = b ∷ repeated b n

unfoldable pub new_header : DatabaseHeader
unfolding repeated
new_header = record {
  magic = codes "AGIDB001";
  format_version = 1;
  page_size = default_page_size;
  database_id = repeated 1 16;
  created_at = 1774000000;
  checkpoint_lsn = 0;
  checksum = 0x90abcdef;
}

unfoldable pub validate_header : DatabaseHeader → Result PageFault (Unit {0})
validate_header h = do
  fail_if (not (h.magic == codes "AGIDB001")) PageFault.invalid_magic
  fail_if (not (nat_eq h.format_version 1)) (PageFault.unsupported_version h.format_version)
  ok tt

pub data PageType : Type 0 where
  metadata table b_tree_internal b_tree_leaf overflow free_list : PageType

pub record PageHeader : Type 0 where
  pub page_id : ℕ
  pub page_type : PageType
  pub generation : ℕ
  pub payload_length : ℕ
  pub checksum : ℕ

-- the field `data` is `content`
pub record Page : Type 0 where
  pub header : PageHeader
  pub content : List ℕ

unfoldable pub new_page : ℕ → PageType → Page
unfolding repeated
new_page page_id page_type = record {
  header = record {
    page_id = page_id;
    page_type = page_type;
    generation = 1;
    payload_length = 0;
    checksum = 0;
  };
  content = repeated 0 default_page_size;
}

pub record PageManager : Type 0 where
  pub header : DatabaseHeader
  pub pages : List Page

unfoldable pub new_manager : PageManager
unfolding new_header
new_manager = record { header = new_header; pages = [] }

unfoldable pub allocate_page : PageType → PageManager → PageManager × ℕ
allocate_page page_type m =
    let page_id = length m.pages in
    (record m { pages = m.pages ++ new_page page_id page_type ∷ [] }, page_id)

unfoldable pub read_page : ℕ → PageManager → Result PageFault Page
read_page page_id m = or_err (get_elem? m.pages page_id) (PageFault.out_of_bounds page_id)

-- A new database has a header that is valid.
new_header_valid : validate_header new_header ≡ ok tt
unfolding validate_header new_header list_beq
new_header_valid = refl

-- A page that was allocated is read under its number, and every page that could be read before is
-- read as it was.
pub read_page-allocate_page :
    (page_type : PageType) (m : PageManager)
    → let (m', page_id) = allocate_page page_type m in
      (read_page page_id m' ≡ ok (new_page page_id page_type))
      × ((other : ℕ) (p : Page) → read_page other m ≡ ok p → read_page other m' ≡ ok p)
unfolding allocate_page read_page
read_page-allocate_page page_type m = (
  ap (λ o. or_err o (PageFault.out_of_bounds (length m.pages)))
      (get_elem?-append_last m.pages (new_page (length m.pages) page_type)),
  λ other p h. elim (Option-cases (get_elem? m.pages other)) [
    | inl missing ↦ absurd (ground arith)
    | inr (q, found) ↦
        let kept =
          get_elem?-append_left m.pages (new_page (length m.pages) page_type ∷ []) other
            (lt-length_of_get_elem? m.pages other found) in
        ground arith
  ],
)

pub record BTreeIndex (K : Type 0) : Type 0 where
  pub name : String
  pub entries : Map K ℕ

pub data IndexFault (K : Type 0) : Type 0 where
  duplicate_key : K → String → IndexFault K

module _ {K : Type 0} ⦃e : Key K⦄ where
  unfoldable pub insert_key : K → ℕ → BTreeIndex K → Result (IndexFault K) (Unit {0}) × BTreeIndex K
  unfolding insert
  insert_key key page_id i =
      if contains key i.entries
      then (err (IndexFault.duplicate_key key i.name), i)
      else (ok tt, record i { entries = insert key page_id i.entries })

  unfoldable pub page_of : K → BTreeIndex K → Option ℕ
  unfolding lookup
  page_of key i = lookup key i.entries

  -- A key that is not in the index is inserted and found with its page; one that is there is refused
  -- and keeps its page. Other keys keep theirs in both cases.
  pub page_of-insert_key :
      (key : K) (page_id : ℕ) (i : BTreeIndex K)
      → let (result, i') = insert_key key page_id i in
        (page_of key i ≡ none → (result ≡ ok tt) × (page_of key i' ≡ some page_id))
        × (page_of key i ≢ none → (result ≡ err (IndexFault.duplicate_key key i.name)) × (i' ≡ i))
        × ((other : K) → other ≢ key → page_of other i' ≡ page_of other i)
  unfolding insert_key page_of
  page_of-insert_key key page_id i = elim (Option-cases (lookup key i.entries)) [
    | inl missing ↦ (
      λ h. (ground arith, ground (arith, lookup-insert_self key page_id i.entries)),
      λ h. absurd (h missing),
      λ other differs. ground (arith, lookup-insert_ne key other page_id i.entries differs),
    )
    | inr (page, found) ↦ (
      λ h. absurd (ground arith),
      λ h. (ground arith, ground arith),
      λ other differs. ground arith,
    )
  ]
