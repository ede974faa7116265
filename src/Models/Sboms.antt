-- ===== src/Models/Sboms.antt =====
-- models/sbom.py, models/service.py, models/project.py, models/acceptance.py.
use argus_sbomguard.Common.{ℕ, Option, Bool, Text}
use argus_sbomguard.Common.Json.{Json}

pub data SbomFormat : Type 0 where
  cyclonedx spdx : SbomFormat

pub record Project : Type 0 where
  pub id : ℕ
  pub name : Text
  pub slug : Text
  pub description : Option Text
  pub repo_url : Option Text
  pub platform : Option Text
  pub created_at : ℕ

pub record Service : Type 0 where
  pub id : ℕ
  pub project_id : ℕ
  pub name : Text

pub record Sbom : Type 0 where
  pub id : ℕ
  pub project_id : ℕ
  pub version : Text
  pub format : Option SbomFormat
  pub raw_sbom : Json
  pub sha256 : Text
  pub dependency_count : ℕ
  pub uploaded_at : ℕ
  pub service_id : Option ℕ
  pub created_at : ℕ

pub record Dependency : Type 0 where
  pub sbom_id : ℕ
  pub name : Json
  pub version : Json
  pub purl : Json
  pub dep_type : Json
  pub license : Json
  pub is_direct : Bool
  pub extra_data : Json

pub record RiskAcceptance : Type 0 where
  pub id : ℕ
  pub project_id : ℕ
  pub service_id : Option ℕ
  pub vulnerability_id : ℕ
  pub reason : Text
  pub created_at : ℕ
