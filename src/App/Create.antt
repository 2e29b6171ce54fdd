-- ===== src/App/Create.antt =====
-- main.py: create_app, what it gives to FastAPI.
use inference_forge.Base.{Bool, true, List, [], ◌∷◌}
use inference_forge.Text.{Text, codes}

pub record Cors : Type 0 where
  pub allow_origins : List Text
  pub allow_credentials : Bool
  pub allow_methods : List Text
  pub allow_headers : List Text

-- `tags` are those of the router. Its lifespan is that of App.antt.
pub record Application : Type 0 where
  pub title : Text
  pub version : Text
  pub docs_url : Text
  pub redoc_url : Text
  pub middleware : List Cors
  pub tags : List Text

abbrev pub any_value : List Text
any_value = codes "*" ∷ []

unfoldable pub create_app : Text → Application
create_app version = record {
  title = codes "inference-forge";
  version = version;
  docs_url = codes "/docs";
  redoc_url = codes "/redoc";
  middleware =
      record {
        allow_origins = any_value;
        allow_credentials = true;
        allow_methods = any_value;
        allow_headers = any_value;
      }
      ∷ [];
  tags = codes "inference" ∷ [];
}
