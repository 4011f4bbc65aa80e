-- ===== src/Schema/Wiki.antt =====
-- src/schema/wiki.ts.
use ycm_harness.Common.{String, Bool, false, Option, none, List, [], Dict}

pub record WikiSource : Type 0 where
  pub id : String
  pub title : String
  pub raw_path : String
  pub origin : Option String
  pub added_at : String
  pub updated_at : String

pub record WikiPage : Type 0 where
  pub id : String
  pub title : String
  pub source_ids : List String
  pub tags : List String
  pub body_path : String
  pub created_at : String
  pub updated_at : String

pub data WikiLogKind : Type 0 where
  wiki_created source_added page_upserted wiki_checkpoint wiki_linted wiki_queried : WikiLogKind

pub record WikiLogEntry : Type 0 where
  pub id : String
  pub kind : WikiLogKind
  pub ref : Option String
  pub note : Option String
  pub at : String

pub record WikiState : Type 0 where
  pub initialized : Bool
  pub initialized_at : Option String
  pub sources : Dict WikiSource
  pub pages : Dict WikiPage
  pub log : List WikiLogEntry

abbrev pub empty_wiki_state : WikiState
empty_wiki_state = record {
  initialized = false;
  initialized_at = none;
  sources = [];
  pages = [];
  log = [];
}
