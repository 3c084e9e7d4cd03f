-- ===== src/Core/Contract.antt =====
-- internal/core/contract and internal/javamodel/types.go: the classes of a contract.
pub mod Services
use sofarpc_cli.Prelude.{Bool, Bytes, List, Option}

pub record TypeParam : Type 0 where
  pub name : Bytes
  pub bound : Bytes

pub record Field : Type 0 where
  pub name : Bytes
  pub java_type : Bytes
  pub type_template : Bytes
  pub required : Bool

pub record Method : Type 0 where
  pub name : Bytes
  pub param_types : List Bytes
  pub param_type_templates : List Bytes
  pub return_type : Bytes
  pub return_type_template : Bytes

pub record Class : Type 0 where
  pub fqn : Bytes
  pub simple_name : Bytes
  pub binary_name : Bytes
  pub file : Bytes
  pub kind : Bytes
  pub type_params : List TypeParam
  pub superclass : Bytes
  pub interfaces : List Bytes
  pub fields : List Field
  pub enum_constants : List Bytes
  pub methods : List Method

-- IndexedClassStore: Class, and IndexedClasses
pub record IndexedClassStore : Type 0 where
  pub class_of : Bytes → Option Class
  pub indexed_classes : List Bytes
